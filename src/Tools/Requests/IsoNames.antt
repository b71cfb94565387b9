-- ===== src/Tools/Requests/IsoNames.antt =====
-- When two fields of a form are the same to openQA, as the comment on `RESERVED_ISO_KEYS` in
-- src/tools/write.rs documents it, and when they are the same to the check there.
use ruoqa_mcp.Common.{
  ℕ, ◌≡◌, refl, sym, ap, ◌∙◌, Bool, true, false, ◌&&◌, ◌||◌, not, List, [], ◌∷◌, arith,
  if◌then◌else◌, any,
}
use ruoqa_mcp.Common.Text.{Text, codes, text_eq, text_eq_sound, text_eq_refl, to_ascii_uppercase}
use ruoqa_mcp.Http.Hosts.{has, text_eq_comm}
use ruoqa_mcp.Tools.{Form}
use ruoqa_mcp.Tools.Write.{upcase}

-- The two keys that openQA keeps as they are; it upcases every other one.
abbrev pub exempt : Text → Bool
exempt key = text_eq key (codes "async") || text_eq key (codes "scheduled_product_clone_id")

abbrev pub stored : Text → Text
stored key = if exempt key then key else upcase key

abbrev pub same_field : Text → Text → Bool
same_field k j = text_eq (stored k) (stored j)

-- The same but for the case of letters, and yet two fields to openQA.
abbrev pub kept_apart : Text → Text → Bool
kept_apart k j = text_eq (upcase k) (upcase j) && not (same_field k j)

abbrev pub keys : Form → List Text
keys [] = []
keys ((k, v) ∷ form) = k ∷ keys form

-- The keys of a form, as the check folds them.
abbrev pub upcased : Form → List Text
upcased [] = []
upcased ((k, v) ∷ form) = upcase k ∷ upcased form

-- No text stands twice.
abbrev pub distinct : List Text → Bool
distinct [] = true
distinct (k ∷ ks) = not (has k ks) && distinct ks

-- No key stands before another one that is `same`.
abbrev pub no_two : (Text → Text → Bool) → List Text → Bool
no_two same [] = true
no_two same (k ∷ ks) = not (any (same k) ks) && no_two same ks

to_ascii_uppercase_idem : (c : ℕ) → to_ascii_uppercase (to_ascii_uppercase c) ≡ to_ascii_uppercase c
to_ascii_uppercase_idem c = ground arith

upcase_idem : (s : Text) → upcase (upcase s) ≡ upcase s
upcase_idem [] = refl
upcase_idem (c ∷ s) = cc (to_ascii_uppercase_idem c, upcase_idem s)

upcase-stored : (k : Text) → upcase (stored k) ≡ upcase k
upcase-stored k = by_exemption (exempt k)
  where
    by_exemption : (kept : Bool) → upcase (if kept then k else upcase k) ≡ upcase k
    by_exemption true = refl
    by_exemption false = upcase_idem k

same_field-upcase : (k j : Text) → same_field k j ≡ true → text_eq (upcase k) (upcase j) ≡ true
same_field-upcase k j e =
    let same : upcase k ≡ upcase j =
      sym (upcase-stored k) ∙ ap upcase (text_eq_sound (stored k) (stored j) e) ∙ upcase-stored j in
    ap (λ t. text_eq t (upcase j)) same ∙ text_eq_refl (upcase j)

folded_lem : (k j : Text) → text_eq (upcase k) (upcase j) ≡ (same_field k j || kept_apart k j)
folded_lem k j = by_test (same_field k j) (text_eq (upcase k) (upcase j)) (same_field-upcase k j)
  where
    by_test :
        (same folded : Bool) → (same ≡ true → folded ≡ true) → folded ≡ (same || folded && not same)
    by_test true folded h = h refl
    by_test false true h = refl
    by_test false false h = refl

has-upcased :
    (k : Text) (form : Form)
    → has (upcase k) (upcased form)
      ≡ (any (same_field k) (keys form) || any (kept_apart k) (keys form))
has-upcased k [] = refl
has-upcased k ((j, v) ∷ form) =
    ap (λ b. b || has (upcase k) (upcased form))
      (text_eq_comm (upcase j) (upcase k) ∙ folded_lem k j)
    ∙ ap (λ b. (same_field k j || kept_apart k j) || b) (has-upcased k form)
    ∙ (regroup (same_field k j) (kept_apart k j) (any (same_field k) (keys form))
        (any (kept_apart k) (keys form)))
  where
    regroup : (a b c d : Bool) → ((a || b) || (c || d)) ≡ ((a || c) || (b || d))
    regroup true b c d = refl
    regroup false true true d = refl
    regroup false true false d = refl
    regroup false false c d = refl

-- The check tells apart fewer fields than openQA does: no two are folded together exactly if no two
-- are the same to openQA, and no two differ only in the case that openQA keeps.
pub distinct-upcased :
    (form : Form)
    → distinct (upcased form) ≡ (no_two same_field (keys form) && no_two kept_apart (keys form))
distinct-upcased [] = refl
distinct-upcased ((k, v) ∷ form) =
    rw (has-upcased k form, distinct-upcased form)
      (regroup (any (same_field k) (keys form)) (any (kept_apart k) (keys form))
        (no_two same_field (keys form)) (no_two kept_apart (keys form)))
  where
    regroup : (a b c d : Bool) → (not (a || b) && (c && d)) ≡ ((not a && c) && (not b && d))
    regroup true b c d = refl
    regroup false true true d = refl
    regroup false true false d = refl
    regroup false false true d = refl
    regroup false false false d = refl
