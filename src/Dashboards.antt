-- ===== src/Dashboards.antt =====
-- Dashboards: slugify of redash/utils/__init__.py, generate_slug of redash/models.py, and the requests of
-- redash/handlers/dashboards.py that share and unshare a dashboard. `lower` is Python's `lower()` on
-- code points, `token` what generate_token returns.
pub mod Slugs
pub mod Public
use redash.Prelude.{
  ℕ, zero, suc, ◌+◌, ◌-◌, ◌*◌, ◌/◌, ◌%◌, ◌^◌, ◌≤◌, ◌<◌, min, max, String, ◌≡◌, refl, sym, ap, ◌∙◌,
  subst, ◌≢◌, ◌↔◌, ◌⊎◌, inl, inr, Bool, true, false, ◌&&◌, ◌||◌, not, Option, none, some, List, [],
  ◌∷◌, ◌++◌, map, arith, ltb, leb, nat_beq, if◌then◌else◌, ltb→lt, lt→ltb, leb→le, nat_beq_iff,
  tests, Eq, ◌==◌, nat_eq, string_eq, list_eq, option_eq, list_beq_iff, option_beq_iff, Bool-cases,
  Option-cases, is_some, length, take, drop, select, find, any, all, length-append,
  length-select-le, any-append, contains, contains-append, reject, update, option_all-find,
  insert_by, sort_by, any-sort_by, any-select, pair_eq, pair_beq_iff, option_all, any-reject_self,
  length-update, without_first, count, count-without_first, count-without_first_ne, contains-eq-ltb,
  Assoc, lookup, insert, remove, lookup-insert, lookup-remove, printed, concat,
}
use redash.Prelude.Decimal.{decimal}
use redash.Tables.{Dashboard, ApiKey, Db}
use redash.Permissions.{Principal, user, api_user}
use redash.Handler.{
  Failure, exception, Action, pure, fail, gets, modify, commit, record_event, ◌>>=◌, ◌>>◌, one,
  require,
}
use redash.Groups.{require_permission}
use redash.Sharing.{user_row, require_admin_or_owner}
use redash.Visuals.{dashboard_by_id_and_org}

-- The class [a-z0-9_\-]
abbrev pub is_slug_char : ℕ → Bool
is_slug_char c = leb 97 c && leb c 122 || (leb 48 c && leb c 57 || (c == 95 || c == 45))

-- `re.sub('[^a-z0-9_\-]+', '-', s)`, where the flag says that a run of other characters has begun.
unfoldable pub replace_runs : Bool → List ℕ → List ℕ
replace_runs in_run [] = []
replace_runs in_run (c ∷ cs) =
    let kept = replace_runs false cs in
    let dropped = replace_runs true cs in
    if is_slug_char c then c ∷ kept else if in_run then dropped else b'-' ∷ dropped

-- `slugify(name) + "_" + str(tries)`
abbrev pub numbered : List ℕ → ℕ → List ℕ
numbered base tries = base ++ b'_' ∷ decimal tries

-- The loop of `generate_slug`, on fuel.
unfoldable pub search_slug : ℕ → List ℕ → List (List ℕ) → List ℕ → ℕ → Option (List ℕ)
search_slug zero base slugs slug tries = none
search_slug (suc fuel) base slugs slug tries =
    let rest = search_slug fuel base slugs (numbered base tries) (suc tries) in
    if contains slugs slug then rest else some slug

abbrev pub slugs_of : Db → List (List ℕ)
slugs_of db = map (λ (d : Dashboard). d.slug) db.dashboards

module _ (lower : List ℕ → List ℕ) where
  unfoldable pub slugify : List ℕ → List ℕ
  unfolding replace_runs
  slugify s = replace_runs false (lower s)

  -- One round for each slug that is taken, and one more.
  unfoldable pub generate_slug : List ℕ → List (List ℕ) → Option (List ℕ)
  unfolding search_slug slugify
  generate_slug name slugs = search_slug (suc (length slugs)) (slugify name) slugs (slugify name) 1

-- ApiKey.create_for_object
unfoldable pub create_for_object : ℕ → ℕ → ℕ → String → Db → Db
create_for_object dashboard_id org user_id token db = record db {
  api_keys =
      db.api_keys
      ++ record {
        id = db.next_id;
        org_id = org;
        api_key = token;
        active = true;
        object_type = "dashboards";
        object_id = dashboard_id;
        created_by_id = some user_id;
      }
        ∷ [];
  next_id = suc db.next_id;
}

abbrev pub is_public_key : ℕ → ApiKey → Bool
is_public_key dashboard_id k =
    k.object_type == "dashboards" && (k.object_id == dashboard_id && k.active)

-- ApiKey.get_by_object
unfoldable pub get_by_object : ℕ → Db → Option ApiKey
get_by_object dashboard_id db = find (is_public_key dashboard_id) db.api_keys

-- `api_key.active = False`, if there is one.
unfoldable pub deactivate : Option ApiKey → Db → Db
deactivate none db = db
deactivate (some key) db = record db {
  api_keys = update (λ k. k.id == key.id) (λ k. record k { active = false }) db.api_keys;
}

-- `current_user.org`
abbrev pub org_of : Principal → ℕ
org_of (user u) = u.org_id
org_of (api_user a) = a.org_id

module _ (me : Principal) (org : ℕ) where
  -- DashboardShareResource.post
  unfoldable pub share : ℕ → String → Action (Unit {0})
  share dashboard_id token = do
    dashboard ← gets (dashboard_by_id_and_org dashboard_id org)
    dashboard ← one dashboard
    require_admin_or_owner me org dashboard.user_id
    my_id ← user_row me
    modify (create_for_object dashboard.id (org_of me) my_id token)
    commit
    record_event "activate_api_key" "dashboard" dashboard.id

  -- DashboardShareResource.delete
  unfoldable pub unshare : ℕ → Action (Unit {0})
  unshare dashboard_id = do
    dashboard ← gets (dashboard_by_id_and_org dashboard_id org)
    dashboard ← one dashboard
    require_admin_or_owner me org dashboard.user_id
    key ← gets (get_by_object dashboard.id)
    modify (deactivate key)
    commit
    record_event "deactivate_api_key" "dashboard" dashboard.id
