-- ===== src/Authentication/Signatures.antt =====
-- Whom a signed address lets in, and how long.
use redash.Prelude.{
  ℕ, ◌+◌, ◌*◌, ◌≤◌, ◌<◌, String, ◌≡◌, refl, sym, ap, ◌∙◌, ◌≢◌, ◌⊎◌, inl, inr, Bool, true, false,
  ◌&&◌, not, Option, none, some, arith, ltb, leb, if◌then◌else◌, nat_beq_iff, ◌==◌, nat_eq,
  string_eq, list_eq, option_eq, find, pair_eq,
}
use mathlib.Core.List.{Memᴰ}
use redash.Tables.{User, Query, Db}
use redash.Permissions.{Principal, user}
use redash.Handler.{Result, ok}
use redash.Authentication.{
  Request, query_principal, sign, is_signed, admit_query, by_query, admit_user, by_user, hmac_load,
  hmac_load_user,
}
use redash.Authentication.Keys.{find-Memᴰ, if-some}

module _ (digest : String → String → ℕ → String) where
  is_signed-digest :
      (key signature path : String) (expires : ℕ)
      → is_signed digest key signature path expires ≡ true
      → (key ≢ "") × (signature ≡ digest key path expires)
  unfolding is_signed sign
  is_signed-digest key signature path expires h = go (key == "") refl h
    where
      go :
          (b : Bool)
          → (key == "") ≡ b
          → (not b
              && option_eq.beq
                  (if b then none else some (digest key path expires))
                  (some signature))
            ≡ true
          → (key ≢ "") × (signature ≡ digest key path expires)
      go true e h = cc
      go false e h = (
        λ q. cc ((string_eq.beq_iff key "").1 q, e),
        sym ((string_eq.beq_iff (digest key path expires) signature).0 h),
      )

  -- The key of the user or of the query that the address names.
  abbrev pub SignedFor : Request → Db → String → Principal → Type 0
  SignedFor r db key p =
      ((u : User) × (p ≡ user u) × Memᴰ u db.users × (r.user_id ≡ some u.id) × (u.api_key ≡ key))
      ⊎ ((q : Query) × (p ≡ query_principal q db)
          × Memᴰ q db.queries
          × (r.query_id ≡ some q.id)
          × (q.api_key ≡ key))

  abbrev Signed : Request → Db → String → ℕ → Principal → Type 0
  Signed r db signature expires p =
      (key : String) × (is_signed digest key signature r.path expires ≡ true) × SignedFor r db key p

  module _ (r : Request) (db : Db) (signature : String) (expires : ℕ) (p : Principal) where
    admit_query-Signed :
        (id : ℕ) (o : Option Query)
        → r.query_id ≡ some id
        → find (λ q. q.id == id) db.queries ≡ o
        → admit_query digest r db signature expires o ≡ ok (some p)
        → Signed r db signature expires p
    unfolding admit_query
    admit_query-Signed id none i e h = cc
    admit_query-Signed id (some q) i e h =
        let signed = is_signed digest q.api_key signature r.path expires in
        let (s, v) = if-some signed (query_principal q db) p (cc h) in
        let (m, t) = find-Memᴰ (λ q. q.id == id) db.queries q e in
        (q.api_key, s, inr (q, v, m, i ∙ ap some (sym ((nat_beq_iff q.id id).0 t)), refl))

    by_query-Signed :
        (o : Option ℕ)
        → r.query_id ≡ o
        → by_query digest r db signature expires o ≡ ok (some p)
        → Signed r db signature expires p
    unfolding by_query
    by_query-Signed none i h = cc
    by_query-Signed (some id) i h = admit_query-Signed id _ i refl h

    admit_user-Signed :
        (id : ℕ) (o : Option User)
        → r.user_id ≡ some id
        → find (λ u. u.id == id) db.users ≡ o
        → admit_user digest r db signature expires o ≡ ok (some p)
        → Signed r db signature expires p
    unfolding admit_user
    admit_user-Signed id none i e h = cc
    admit_user-Signed id (some u) i e h =
        go (is_signed digest u.api_key signature r.path expires) refl h
      where
        go :
            (b : Bool)
            → is_signed digest u.api_key signature r.path expires ≡ b
            → (if b then ok (some (user u)) else by_query digest r db signature expires r.query_id)
              ≡ ok (some p)
            → Signed r db signature expires p
        go true s h =
            let (m, t) = find-Memᴰ (λ u. u.id == id) db.users u e in
            let same = sym ((nat_beq_iff u.id id).0 t) in
            (u.api_key, s, inl (u, cc h, m, i ∙ ap some same, refl))
        go false s h = by_query-Signed r.query_id refl h

    by_user-Signed :
        (o : Option ℕ)
        → r.user_id ≡ o
        → by_user digest r db signature expires o ≡ ok (some p)
        → Signed r db signature expires p
    unfolding by_user
    by_user-Signed none i h = by_query-Signed r.query_id refl h
    by_user-Signed (some id) i h = admit_user-Signed id _ i refl h

  hmac_load_sound :
      (r : Request) (now : ℕ) (db : Db) (p : Principal) (e : Option ℕ) (s : Option String)
      → hmac_load digest r now db e s ≡ ok (some p)
      → (expires : ℕ) × (key : String) × (e ≡ some expires)
        × (now < expires)
        × (expires ≤ now + 3_600 * 1_000_000)
        × (key ≢ "")
        × (s ≡ some (digest key r.path expires))
        × SignedFor r db key p
  unfolding hmac_load
  hmac_load_sound r now db p none s h = cc
  hmac_load_sound r now db p (some expires) none h = cc
  hmac_load_sound r now db p (some expires) (some signature) h =
      let (t, j) =
        passed (not (signature == "") && (ltb now expires && leb expires (now + 3_600 * 1_000_000)))
          _ h in
      let (key, signed, for) = by_user-Signed r db signature expires p r.user_id refl j in
      let (k, d) = is_signed-digest key signature r.path expires signed in
      (expires, key, refl, ground (arith, t), ground (arith, t), k, ap some d, for)
    where
      passed :
          (b : Bool) (m : Result (Option Principal))
          → (if b then m else ok none) ≡ ok (some p)
          → (b ≡ true) × (m ≡ ok (some p))
      passed true m h = (refl, h)
      passed false m h = cc

-- Whoever a signed request lets in, it is not yet expired and expires within the hour, and its signature is the
-- digest of its path and its time under the key, which is not empty, of the user or the query that it names;
-- the request is made by that user, or with the groups of that query.
pub hmac_load_user_sound :
    (digest : String → String → ℕ → String) (r : Request) (now : ℕ) (db : Db) (p : Principal)
    → hmac_load_user digest r now db ≡ ok (some p)
    → (expires : ℕ) × (key : String) × (r.expires ≡ some expires)
      × (now < expires)
      × (expires ≤ now + 3_600 * 1_000_000)
      × (key ≢ "")
      × (r.signature ≡ some (digest key r.path expires))
      × SignedFor digest r db key p
unfolding hmac_load_user
hmac_load_user_sound digest r now db p h = hmac_load_sound digest r now db p r.expires r.signature h
