-- ===== src/Tools/Read.antt =====
-- The arguments of the reading tools that send one request, src/tools/read.rs. A double is its bit
-- pattern.
use ruoqa_mcp.Common.{ℕ, Bool, Option, List}
use ruoqa_mcp.Common.Text.{Text}
use ruoqa_mcp.Common.Int.{ℤ}

pub record ListJobsArgs : Type 0 where
  pub server : Text
  pub state : Option Text
  pub result : Option Text
  pub distri : Option Text
  pub version : Option Text
  pub build : Option Text
  pub test : Option Text
  pub arch : Option Text
  pub machine : Option Text
  pub groupid : Option ℤ
  pub group : Option Text
  pub latest : Option ℤ
  pub limit : Option ℤ
  pub offset : Option ℤ
  pub ids : Option (List ℤ)
  pub summary : Bool

pub record ListJobsOverviewArgs : Type 0 where
  pub server : Text
  pub state : Option Text
  pub result : Option Text
  pub distri : Option Text
  pub version : Option Text
  pub build : Option Text
  pub test : Option Text
  pub arch : Option Text
  pub machine : Option Text
  pub groupid : Option ℤ
  pub group : Option Text
  pub latest : Option ℤ
  pub limit : Option ℤ
  pub ids : Option (List ℤ)
  pub summary : Bool

pub record GetJob : Type 0 where
  pub server : Text
  pub job_id : ℤ
  pub ancestors : Option Bool
  pub descendants : Option Bool

pub record FindJobsBySetting : Type 0 where
  pub server : Text
  pub key : Text
  pub list_value : Text

pub record JobStatus : Type 0 where
  pub server : Text
  pub job_id : ℤ
  pub follow : Option ℤ

pub record GroupId : Type 0 where
  pub server : Text
  pub group_id : ℤ

pub record BuildResults : Type 0 where
  pub server : Text
  pub group_id : ℤ
  pub limit_builds : Option ℤ
  pub time_limit_days : Option ℕ
  pub only_tagged : Option ℤ
  pub show_tags : Option ℤ

pub record AssetId : Type 0 where
  pub server : Text
  pub asset_id : ℤ

pub record Search : Type 0 where
  pub server : Text
  pub q : Text

pub record ScheduledProductId : Type 0 where
  pub server : Text
  pub scheduled_product_id : ℤ

pub record ParentGroupId : Type 0 where
  pub server : Text
  pub parent_group_id : ℤ

pub record ServerOnly : Type 0 where
  pub server : Text

pub record ListWorkers : Type 0 where
  pub server : Text
  pub reserved : Option Bool
  pub limit : Option ℤ
  pub offset : Option ℤ
