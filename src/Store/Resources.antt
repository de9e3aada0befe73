-- ===== src/Store/Resources.antt =====
-- internal/domain/resource.go, internal/persistence/sqlite/resource_repository.go: the ledger of what a
-- run has created outside, in the table of resources.
pub mod Names
use oscar_corrtest.Base.{
  ℕ, String, Bool, true, false, ◌&&◌, ◌||◌, not, List, [], ◌∷◌, ◌++◌, Option, none, some, Result,
  ok, err, ◌>>=◌, ◌>>◌, refuse_if, str_eq, if◌then◌else◌, any,
}
use oscar_corrtest.Run.{is_zero}
use oscar_corrtest.Store.{
  Resource, ResourceState, Db, Call, StoreError, Outcome, proposed, created, deleted, unknown_state,
  other_state, call, count_names, insert_resource, write_resource, bad_resource, name_taken,
  bad_evidence, not_eligible, refused, has_id,
}

abbrev pub is_null : Option ℕ → Bool
is_null none = true
is_null (some t) = false

abbrev state_refused : Resource → Bool
state_refused r = elim r.lifecycle_state [
  | proposed ↦
      not (str_eq r.external_id "") || not (is_null r.created_at) || not (is_null r.deleted_at)
  | created ↦ false
  | deleted ↦ false
  | unknown_state ↦ false
  | other_state s ↦ true
]

unfoldable pub resource_refused : Resource → Bool
resource_refused r =
    str_eq r.id ""
    || str_eq r.run_id ""
    || str_eq r.kind ""
    || str_eq r.external_name ""
    || str_eq r.ownership_token ""
    || not (str_eq r.ownership_token r.run_id)
    || state_refused r

-- `external_name=? AND deleted_at IS NULL`.
abbrev pub holds_name : String → Resource → Bool
holds_name name r = str_eq r.external_name name && is_null r.deleted_at

abbrev pub is_resource : String → Resource → Bool
is_resource id r = str_eq r.id id

abbrev may_adopt : ResourceState → Bool
may_adopt proposed = true
may_adopt unknown_state = true
may_adopt s = false

abbrev may_delete : ResourceState → Bool
may_delete deleted = false
may_delete (other_state s) = false
may_delete s = true

abbrev pub adoptable : String → Resource → Bool
adoptable id r = is_resource id r && may_adopt r.lifecycle_state && str_eq r.external_id ""

abbrev pub deletable : String → Resource → Bool
deletable id r = is_resource id r && may_delete r.lifecycle_state

abbrev pub blamable : String → Resource → Bool
blamable id r = is_resource id r && is_null r.deleted_at

-- `UPDATE resources SET ... WHERE ...`.
unfoldable pub update_where :
    (Resource → Bool) → (Resource → Resource) → List Resource → List Resource
update_where p f [] = []
update_where p f (r ∷ rs) = (if p r then f r else r) ∷ update_where p f rs

abbrev pub with_resources : Db → List Resource → Db
with_resources db rs = record db { resources = rs }

abbrev pub adopted : String → Option ℕ → Resource → Resource
adopted external_id at r = record r {
  external_id = external_id;
  lifecycle_state = created;
  created_at = at;
  cleanup_error = "";
}

abbrev pub gone : Option ℕ → Resource → Resource
gone at r = record r { lifecycle_state = deleted; deleted_at = at; cleanup_error = "" }

abbrev pub blamed : String → Resource → Resource
blamed message r = record r { lifecycle_state = unknown_state; cleanup_error = message }

module _ (broken : Call → Bool) where
  -- The keys of the table: the primary key and the run.
  unfoldable pub create_resource : Resource → Db → Outcome Db
  unfolding resource_refused
  create_resource r db = do
    refuse_if (resource_refused r) bad_resource
    call broken count_names
    refuse_if (any (holds_name r.external_name) db.resources) name_taken
    call broken insert_resource
    refuse_if (any (is_resource r.id) db.resources || not (any (has_id r.run_id) db.runs))
        (refused "resources")
    ok (with_resources db (db.resources ++ r ∷ []))

  unfoldable pub adopt_resource : String → String → Option ℕ → Db → Outcome Db
  unfolding update_where
  adopt_resource id external_id at db = do
    refuse_if (str_eq external_id "" || is_zero at) bad_evidence
    call broken write_resource
    refuse_if (not (any (adoptable id) db.resources)) not_eligible
    ok (with_resources db (update_where (adoptable id) (adopted external_id at) db.resources))

  unfoldable pub mark_resource_deleted : String → Option ℕ → Db → Outcome Db
  unfolding update_where
  mark_resource_deleted id at db = do
    refuse_if (is_zero at) bad_evidence
    call broken write_resource
    refuse_if (not (any (deletable id) db.resources)) not_eligible
    ok (with_resources db (update_where (deletable id) (gone at) db.resources))

  unfoldable pub mark_resource_cleanup_error : String → String → Db → Outcome Db
  unfolding update_where
  mark_resource_cleanup_error id message db = do
    refuse_if (str_eq message "") bad_evidence
    call broken write_resource
    ok (with_resources db (update_where (blamable id) (blamed message) db.resources))
