-- ===== src/Tests/Env.antt =====
-- An environment with an endpoint, and one without.
use ruoqa_mcp.Common.{◌<◌, ◌≡◌, refl, true, Option, none, some, [], ◌∷◌, ◌++◌, if◌then◌else◌}
use ruoqa_mcp.Common.Text.{Text, text_eq, codes}
use ruoqa_mcp.Otel.Env.{
  Lookup, logs, traces, metrics, lookup, var_name, always_on, resolve_exporter, resolve_timeout,
  resolve_queue, resolve_sampler, resolve_metric_export_interval, resolve_temporality_preference,
  validate_protocol, validate_compression, validate_no_tls_material, parse_millis,
}
use ruoqa_mcp.Otel.Env.Resolve.{
  OtelConfig, Parsers, resolve_endpoint, resolve_headers, resolve_signal, resolve,
}
use ruoqa_mcp.Otel.Env.Supported.{
  UnsetOr, IsSupported, IsResolved, some_signal, resolve-IsSupported,
}
use ruoqa_mcp.Otel.Env.Endpoints.{resolve_off}

-- A URL and a header are their texts.
abbrev as_text : Parsers Text Text
as_text = record {
  parse_url = λ t. some t;
  parse_header = λ n v. some (n ++ 61 ∷ v);
  decode = λ t. some t;
}

abbrev nothing_set : Lookup
nothing_set name = none

resolve_off_example : ◌≡◌ {A = Option (OtelConfig Text Text)} none none
unfolding resolve lookup resolve_sampler resolve_metric_export_interval parse_millis
    resolve_temporality_preference resolve_signal resolve_exporter resolve_endpoint
    validate_protocol validate_compression validate_no_tls_material
resolve_off_example = resolve_off as_text nothing_set {c = none} refl (λ signal. refl) refl

abbrev endpoint_set : Lookup
endpoint_set name =
    if text_eq name (codes "OTEL_EXPORTER_OTLP_LOGS_ENDPOINT")
    then some (codes "http://c/logs")
    else none

abbrev logs_only : OtelConfig Text Text
logs_only = record {
  service_name = codes "ruoqa-mcp";
  logs_config = some (record { endpoint = codes "http://c/logs"; headers = []; timeout = 10000 });
  traces_config = none;
  metrics_config = none;
  queue = record { max_queue_size = 2048; max_export_batch_size = 512; schedule_delay = 5000 };
  sampler = always_on;
  metric_export_interval = 60000;
}

resolve-IsSupported_example :
    (some_signal as_text logs_only ≡ true)
    × IsSupported endpoint_set none
    × IsResolved as_text endpoint_set none logs logs_only.logs_config
    × IsResolved as_text endpoint_set none traces logs_only.traces_config
    × IsResolved as_text endpoint_set none metrics logs_only.metrics_config
    × UnsetOr
        (codes "cumulative")
        (lookup endpoint_set (var_name (some metrics) (codes "_TEMPORALITY_PREFERENCE")))
    × (0 < 60000)
unfolding resolve lookup resolve_sampler resolve_metric_export_interval parse_millis
    resolve_temporality_preference resolve_signal resolve_exporter resolve_endpoint
    validate_protocol validate_compression validate_no_tls_material resolve_headers resolve_timeout
    resolve_queue
resolve-IsSupported_example = resolve-IsSupported as_text endpoint_set {c = logs_only} refl
