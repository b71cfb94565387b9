-- ===== src/Tools/Write.antt =====
-- The 15 mutating tools, src/tools/write.rs: the arguments of each, and the request that it sends.
-- The percent encoder and the serializer of queries are parameters, as are the servers; the
-- sending of the request is not part of the model.
use ruoqa_mcp.Common.{
  ℕ, Bool, ◌&&◌, ◌||◌, not, Option, none, some, List, [], ◌∷◌, map, leb, ◌==◌, if◌then◌else◌, any,
  Result, ok, err, ◌>>◌,
}
use ruoqa_mcp.Common.Text.{Text, codes, text_eq, trim, to_ascii_uppercase, is_empty}
use ruoqa_mcp.Common.Int.{ℤ}
use ruoqa_mcp.Tools.{Invalid, duplicates_required, both_upcase}

pub record RestartJobs : Type 0 where
  pub server : Text
  pub job_ids : List ℤ
  pub force : Option ℤ
  pub prio : Option ℤ

pub record JobId : Type 0 where
  pub server : Text
  pub job_id : ℤ

pub record JobComment : Type 0 where
  pub server : Text
  pub job_id : ℤ
  pub text : Text

-- The entries of `extra` stand in the order in which the map is walked; no key stands twice.
pub record TriggerIsos : Type 0 where
  pub server : Text
  pub distri : Text
  pub version : Text
  pub flavor : Text
  pub arch : Text
  pub extra : Option (List (Text × Text))

pub record DuplicateJob : Type 0 where
  pub server : Text
  pub job_id : ℤ
  pub prio : Option ℤ
  pub dup_type_auto : Option ℤ

pub record SetJobPriority : Type 0 where
  pub server : Text
  pub job_id : ℤ
  pub prio : ℤ

pub record CancelJobs : Type 0 where
  pub server : Text
  pub state : Option Text
  pub result : Option Text
  pub distri : Option Text
  pub version : Option Text
  pub build : Option Text
  pub test : Option Text
  pub arch : Option Text
  pub machine : Option Text
  pub groupid : Option ℤ
  pub group : Option Text

pub record GroupComment : Type 0 where
  pub server : Text
  pub group_id : ℤ
  pub text : Text

pub record ParentGroupComment : Type 0 where
  pub server : Text
  pub parent_group_id : ℤ
  pub text : Text

pub record UpdateJobComment : Type 0 where
  pub server : Text
  pub job_id : ℤ
  pub comment_id : ℤ
  pub text : Text

pub record DeleteJobComment : Type 0 where
  pub server : Text
  pub job_id : ℤ
  pub comment_id : ℤ

pub record CreateBug : Type 0 where
  pub server : Text
  pub bugid : Text
  pub title : Option Text

pub record CancelScheduledProduct : Type 0 where
  pub server : Text
  pub name : Text

abbrev pub nonblank : Option Text → Option Text
nonblank none = none
nonblank (some s) = if is_empty (trim s) then none else some s

abbrev pub reserved_iso_keys : List Text
reserved_iso_keys = codes "DISTRI" ∷ codes "VERSION" ∷ codes "FLAVOR" ∷ codes "ARCH" ∷ []

-- `HashMap::insert` into `seen`: the value that the key had. A later entry hides an earlier one.
abbrev pub seen_key : Text → List (Text × Text) → Option Text
seen_key upper [] = none
seen_key upper ((u, key) ∷ seen) =
    let later = seen_key upper seen in if text_eq u upper then some key else later

abbrev pub upcase : Text → Text
upcase key = map to_ascii_uppercase key

abbrev pub collision : Text → Text → Option Text → Result (Unit {0}) Invalid
collision key upper none = ok tt
collision key upper (some other) = err (both_upcase other key upper)

-- The loop, with `seen`.
abbrev pub check_keys : List (Text × Text) → List (Text × Text) → Result (Unit {0}) Invalid
check_keys seen [] = ok tt
check_keys seen ((key, value) ∷ extra) =
    let upper = upcase key in
    let rest = check_keys ((upper, key) ∷ seen) extra in
    if any (λ r. text_eq r upper) reserved_iso_keys
    then err (duplicates_required key upper)
    else collision key upper (seen_key upper seen) >> rest

unfoldable pub check_extra_keys : List (Text × Text) → Result (Unit {0}) Invalid
check_extra_keys extra = check_keys [] extra

-- The bytes that are encoded, besides those above 127: the complement of the unreserved ones.
abbrev pub alphanumeric : ℕ → Bool
alphanumeric b = leb b'0' b && leb b b'9' || (leb b'A' b && leb b b'Z' || leb b'a' b && leb b b'z')

abbrev pub segment_set : ℕ → Bool
segment_set b =
    not (alphanumeric b) && not (b == b'-') && not (b == b'.') && not (b == b'_') && not (b == b'~')

abbrev pub refused_name : Text → Bool
refused_name value = is_empty value || (text_eq value (codes ".") || text_eq value (codes ".."))
