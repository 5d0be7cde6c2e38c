-- ===== src/Snippets/Owned.antt =====
-- Whose snippets a request may touch.
use redash.Prelude.{
  ℕ, String, ◌≡◌, refl, sym, ap, ◌∙◌, ◌≢◌, inl, inr, Bool, true, false, ◌&&◌, Option, none, some,
  List, [], ◌∷◌, ◌++◌, arith, ◌==◌, nat_eq, string_eq, list_eq, option_eq, Bool-cases, Option-cases,
  find, reject, option_all-find, pair_eq, find-update,
}
use redash.Tables.{QuerySnippet, Db}
use redash.Permissions.{Principal, is_admin_or_owner}
use redash.Handler.{ok, serve, ◌>>=◌}
use redash.Handler.Rules.{Atomic, Reads, serve-cases, atomic_rules, reads}
use redash.Sharing.{user_row, require_admin_or_owner}
use redash.Alerts.Requests.Subscriptions.{Reads-user_row, Reads-require_admin_or_owner}
use redash.Queries.Versions.{id_of}
use redash.Snippets.{
  Params, snippet_by_id_and_org, add_snippet, update_snippet, delete_snippet, present, edit, delete,
  create, Request, edit_snippet, delete_snippet_by_id, create_snippet, handle,
}

Reads-present : (o : Option String) → Reads (present o)
Reads-present none = search reads
Reads-present (some a) = search reads

module _ (me : Principal) (org : ℕ) where
  handle-Atomic : (r : Request) → Atomic (handle me org r)
  unfolding handle edit delete create
  handle-Atomic (edit_snippet id params) =
      search (atomic_rules, Reads-require_admin_or_owner) depth 20
  handle-Atomic (delete_snippet_by_id id) =
      search (atomic_rules, Reads-require_admin_or_owner) depth 20
  handle-Atomic (create_snippet params) =
      search (atomic_rules, Reads-present, Reads-user_row) depth 20

snippet_by_id_and_org-id :
    (id org : ℕ) (db : Db) (s : QuerySnippet) → snippet_by_id_and_org id org db ≡ some s → s.id ≡ id
unfolding snippet_by_id_and_org
snippet_by_id_and_org-id id org db s e =
    let h =
      option_all-find (λ (s : QuerySnippet). s.id == id && s.org_id == org) db.query_snippets in
    ground (arith, h, e)

find-reject :
    (p c : QuerySnippet → Bool) (xs : List QuerySnippet) (k : QuerySnippet)
    → find p xs ≡ some k
    → c k ≡ false
    → find p (reject c xs) ≡ some k
unfolding find reject
find-reject p c [] k h n = cc
find-reject p c (x ∷ xs) k h n = elim (Bool-cases (p x)) [
  | inl y ↦ let e : x ≡ k = ground (arith, y, h) in rw (ap c e ∙ n) (rw y (ap some e))
  | inr z ↦ ground (arith, z, h, find-reject p c xs k)
]

find-append :
    (p : QuerySnippet → Bool) (xs ys : List QuerySnippet) (k : QuerySnippet)
    → find p xs ≡ some k
    → find p (xs ++ ys) ≡ some k
unfolding find
find-append p [] ys k h = cc
find-append p (x ∷ xs) ys k h = ground (arith, h, find-append p xs ys k)

module _ (me : Principal) (org : ℕ) (db : Db) (i : ℕ) (kept : QuerySnippet)
    (found : snippet_by_id_and_org i org db ≡ some kept)
    (others : is_admin_or_owner db.groups me kept.user_id ≡ false) where
  edit-none :
      (id : ℕ) (params : Params)
      → snippet_by_id_and_org id org db ≡ none
      → (serve (edit me org id params) db).0 ≢ ok tt
  unfolding serve edit require_admin_or_owner ◌>>=◌
  edit-none id params e h = ground (arith, e, h)

  edit-some :
      (id : ℕ) (params : Params) (s : QuerySnippet)
      → snippet_by_id_and_org id org db ≡ some s
      → (serve (edit me org id params) db).0 ≡ ok tt
      → (is_admin_or_owner db.groups me s.user_id ≡ true)
        × ((serve (edit me org id params) db).1 ≡ update_snippet s.id params db)
  unfolding serve edit require_admin_or_owner ◌>>=◌
  edit-some id params s e h = (ground (arith, e, h), ground (arith, e, h))

  delete-none :
      (id : ℕ) → snippet_by_id_and_org id org db ≡ none → (serve (delete me org id) db).0 ≢ ok tt
  unfolding serve delete require_admin_or_owner ◌>>=◌
  delete-none id e h = ground (arith, e, h)

  delete-some :
      (id : ℕ) (s : QuerySnippet)
      → snippet_by_id_and_org id org db ≡ some s
      → (serve (delete me org id) db).0 ≡ ok tt
      → (is_admin_or_owner db.groups me s.user_id ≡ true)
        × ((serve (delete me org id) db).1 ≡ delete_snippet s.id db)
  unfolding serve delete require_admin_or_owner ◌>>=◌
  delete-some id s e h = (ground (arith, e, h), ground (arith, e, h))

  -- A snippet that is allowed to whoever asks is another one.
  other_id :
      (id : ℕ) (s : QuerySnippet)
      → snippet_by_id_and_org id org db ≡ some s
      → is_admin_or_owner db.groups me s.user_id ≡ true
      → (kept.id == s.id) ≡ false
  other_id id s e a = elim (Bool-cases (kept.id == s.id)) [
    | inr n ↦ n
    | inl y ↦
        let same : id ≡ i =
          sym (snippet_by_id_and_org-id id org db s e)
          ∙ sym ((nat_eq.beq_iff kept.id s.id).0 y)
          ∙ snippet_by_id_and_org-id i org db kept found in
        absurd (ground (arith, a, others, e, found, ap (λ n. snippet_by_id_and_org n org db) same))
  ]

  stays-update :
      (id : ℕ) (params : Params)
      → (kept.id == id) ≡ false
      → snippet_by_id_and_org i org (update_snippet id params db) ≡ some kept
  unfolding snippet_by_id_and_org update_snippet
  stays-update id params n =
      find-update (λ (s : QuerySnippet). s.id == i && s.org_id == org) (λ s. s.id == id) _
        (λ s. refl) db.query_snippets
      ∙ rw found (rw n refl)

  stays-delete :
      (id : ℕ)
      → (kept.id == id) ≡ false
      → snippet_by_id_and_org i org (delete_snippet id db) ≡ some kept
  unfolding snippet_by_id_and_org delete_snippet
  stays-delete id n = find-reject _ (λ s. s.id == id) db.query_snippets kept found n

  stays-add :
      (user_id : ℕ) (trigger description snippet : String)
      → snippet_by_id_and_org i org (add_snippet user_id org trigger description snippet db)
        ≡ some kept
  unfolding snippet_by_id_and_org add_snippet
  stays-add user_id trigger description snippet = find-append _ db.query_snippets _ kept found

  create-ok :
      (params : Params)
      → (serve (create me org params) db).0 ≡ ok tt
      → (trigger : String) × (description : String) × (snippet : String) × ((serve
            (create me org params)
            db).1
          ≡ add_snippet (id_of me) org trigger description snippet db)
  unfolding serve create user_row ◌>>=◌
  create-ok params h = elim (Option-cases params.trigger) [
    | inl e ↦ absurd (ground (arith, e, h))
    | inr (t, e) ↦ elim (Option-cases params.description) [
      | inl f ↦ absurd (ground (arith, e, f, h))
      | inr (d, f) ↦ elim (Option-cases params.snippet) [
        | inl g ↦ absurd (ground (arith, e, f, g, h))
        | inr (c, g) ↦ (t, d, c, ground (arith, e, f, g, h))
      ]
    ]
  ]

  stays :
      (r : Request)
      → (serve (handle me org r) db).0 ≡ ok tt
      → snippet_by_id_and_org i org (serve (handle me org r) db).1 ≡ some kept
  unfolding handle
  stays (edit_snippet id params) h = elim (Option-cases (snippet_by_id_and_org id org db)) [
    | inl e ↦ absurd (edit-none id params e h)
    | inr (s, e) ↦
        let (a, stored) = edit-some id params s e h in
        ap (snippet_by_id_and_org i org) stored ∙ stays-update s.id params (other_id id s e a)
  ]
  stays (delete_snippet_by_id id) h = elim (Option-cases (snippet_by_id_and_org id org db)) [
    | inl e ↦ absurd (delete-none id e h)
    | inr (s, e) ↦
        let (a, stored) = delete-some id s e h in
        ap (snippet_by_id_and_org i org) stored ∙ stays-delete s.id (other_id id s e a)
  ]
  stays (create_snippet params) h =
      let (t, d, c, stored) = create-ok params h in
      ap (snippet_by_id_and_org i org) stored ∙ stays-add (id_of me) t d c

  -- A snippet is as it was after any request on snippets by somebody who neither owns it nor is an administrator,
  -- whether the request succeeds or not.
  pub handle-kept :
      (r : Request) → snippet_by_id_and_org i org (serve (handle me org r) db).1 ≡ some kept
  handle-kept r = elim (serve-cases (handle me org r) db (handle-Atomic me org r)) [
    | inl (e, s) ↦ ap (λ x. snippet_by_id_and_org i org x.1) s ∙ found
    | inr h ↦ stays r h
  ]
