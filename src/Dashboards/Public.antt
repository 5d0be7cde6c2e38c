-- ===== src/Dashboards/Public.antt =====
-- The keys that make a dashboard public, and what is left of them.
use redash.Prelude.{
  ℕ, ◌+◌, ◌-◌, ◌≡◌, refl, ap, ◌∙◌, ◌≢◌, inl, inr, Bool, true, false, ◌&&◌, not, none, some, List,
  [], ◌∷◌, arith, ◌==◌, nat_eq, string_eq, list_eq, option_eq, Option-cases, length, select, find,
  any, update, option_all-find, pair_eq,
}
use redash.Tables.{Dashboard, ApiKey, Db}
use redash.Permissions.{Principal}
use redash.Handler.{ok, serve, ◌>>=◌}
use redash.Sharing.{require_admin_or_owner}
use redash.Visuals.{dashboard_by_id_and_org}
use redash.Dashboards.{is_public_key, get_by_object, deactivate, unshare}

-- How many keys open the dashboard to anybody.
abbrev pub public_keys : ℕ → List ApiKey → ℕ
public_keys dashboard_id ks = length (select (is_public_key dashboard_id) ks)

-- No id stands twice.
unfoldable pub distinct_ids : List ApiKey → Bool
distinct_ids [] = true
distinct_ids (k ∷ ks) = not (any (λ j. j.id == k.id) ks) && distinct_ids ks

module _ (dashboard_id : ℕ) where
  public_keys-absent :
      (id : ℕ) (ks : List ApiKey)
      → any (λ j. j.id == id) ks ≡ false
      → public_keys dashboard_id (update (λ k. k.id == id) (λ k. record k { active = false }) ks)
        ≡ public_keys dashboard_id ks
  unfolding select update any
  public_keys-absent id [] h = refl
  public_keys-absent id (k ∷ ks) h = ground (arith, h, public_keys-absent id ks)

  any-find :
      (ks : List ApiKey) (key : ApiKey)
      → find (is_public_key dashboard_id) ks ≡ some key
      → any (λ j. j.id == key.id) ks ≡ true
  unfolding find any
  any-find [] key h = cc
  any-find (k ∷ ks) key h = ground (arith, h, any-find ks key)

  public_keys-update :
      (ks : List ApiKey) (key : ApiKey)
      → distinct_ids ks ≡ true
      → find (is_public_key dashboard_id) ks ≡ some key
      → public_keys dashboard_id
            (update (λ k. k.id == key.id) (λ k. record k { active = false }) ks)
          + 1
        ≡ public_keys dashboard_id ks
  unfolding select update find distinct_ids
  public_keys-update [] key d h = cc
  public_keys-update (k ∷ ks) key d h =
      ground (arith, d, h, any-find ks key, public_keys-absent k.id ks, public_keys-update ks key)

  public_keys-none :
      (ks : List ApiKey)
      → find (is_public_key dashboard_id) ks ≡ none
      → public_keys dashboard_id ks ≡ 0
  unfolding select find
  public_keys-none [] h = refl
  public_keys-none (k ∷ ks) h = ground (arith, h, public_keys-none ks)

  public_keys-deactivate :
      (db : Db)
      → distinct_ids db.api_keys ≡ true
      → public_keys dashboard_id (deactivate (get_by_object dashboard_id db) db).api_keys
        ≡ public_keys dashboard_id db.api_keys - 1
  unfolding get_by_object deactivate
  public_keys-deactivate db d =
      elim (Option-cases (find (is_public_key dashboard_id) db.api_keys)) [
        | inl e ↦ rw e (omega (arith, public_keys-none db.api_keys e))
        | inr (key, e) ↦ rw e (omega (arith, public_keys-update db.api_keys key d e))
      ]

dashboard_by_id_and_org-id :
    (id org : ℕ) (db : Db) (d : Dashboard) → dashboard_by_id_and_org id org db ≡ some d → d.id ≡ id
unfolding dashboard_by_id_and_org
dashboard_by_id_and_org-id id org db d e =
    let h = option_all-find (λ (d : Dashboard). d.id == id && d.org_id == org) db.dashboards in
    ground (arith, h, e)

module _ (me : Principal) (org dashboard_id : ℕ) (db : Db) where
  unshare-none :
      dashboard_by_id_and_org dashboard_id org db ≡ none
      → (serve (unshare me org dashboard_id) db).0 ≢ ok tt
  unfolding serve unshare ◌>>=◌ require_admin_or_owner
  unshare-none e h = ground (arith, e, h)

  unshare-some :
      (d : Dashboard)
      → dashboard_by_id_and_org dashboard_id org db ≡ some d
      → (serve (unshare me org dashboard_id) db).0 ≡ ok tt
      → (serve (unshare me org dashboard_id) db).1 ≡ deactivate (get_by_object d.id db) db
  unfolding serve unshare ◌>>=◌ require_admin_or_owner
  unshare-some d e h = ground (arith, e, h)

-- A successful request to unshare a dashboard takes away one of the keys that open it to anybody, if there is
-- one, and leaves the others. (No id stands twice among the keys.)
pub unshare-public_keys :
    (me : Principal) (org dashboard_id : ℕ) (db : Db)
    → distinct_ids db.api_keys ≡ true
    → (serve (unshare me org dashboard_id) db).0 ≡ ok tt
    → public_keys dashboard_id (serve (unshare me org dashboard_id) db).1.api_keys
      ≡ public_keys dashboard_id db.api_keys - 1
unshare-public_keys me org dashboard_id db u h =
    elim (Option-cases (dashboard_by_id_and_org dashboard_id org db)) [
      | inl e ↦ absurd (unshare-none me org dashboard_id db e h)
      | inr (d, e) ↦
          ap (λ x. public_keys dashboard_id x.api_keys) (unshare-some me org dashboard_id db d e h)
          ∙ ap (λ n. public_keys dashboard_id (deactivate (get_by_object n db) db).api_keys)
              (dashboard_by_id_and_org-id dashboard_id org db d e)
          ∙ public_keys-deactivate dashboard_id db u
    ]
