-- ===== src/Destinations/Served.antt =====
-- The subscriptions that name a destination.
use redash.Prelude.{
  ℕ, String, ◌≡◌, refl, ◌∙◌, Bool, true, false, ◌&&◌, Option, none, some, List, [], ◌∷◌, arith,
  ◌==◌, nat_eq, string_eq, list_eq, option_eq, any, all, any-append, update, pair_eq, Assoc,
  all_except, all_mono, any_left, any_never,
}
use redash.Tables.{NotificationDestination, AlertSubscription, Db}
use redash.DataSources.Links.{or_null}
use redash.Destinations.{set_destination, add_destination, delete_destination, is_subscribed}

abbrev pub destination_exists : Db → ℕ → Bool
destination_exists db id =
    any (λ (d : NotificationDestination). d.id == id) db.notification_destinations

-- Every subscription that names a destination names one that is there.
abbrev pub IsServed : Db → Type 0
IsServed db =
    all (λ (s : AlertSubscription). or_null (destination_exists db) s.destination_id)
      db.alert_subscriptions
    ≡ true

any-update_id :
    (id i : ℕ) (f : NotificationDestination → NotificationDestination)
    (ds : List NotificationDestination)
    → ((d : NotificationDestination) → (f d).id ≡ d.id)
    → any (λ d. d.id == i) (update (λ d. d.id == id) f ds) ≡ any (λ d. d.id == i) ds
unfolding any update
any-update_id id i f [] k = refl
any-update_id id i f (d ∷ ds) k = ground (arith, k d, any-update_id id i f ds k)

more-IsServed :
    (db new : Db)
    → ((id : ℕ) → destination_exists db id ≡ true → destination_exists new id ≡ true)
    → new.alert_subscriptions ≡ db.alert_subscriptions
    → IsServed db
    → IsServed new
more-IsServed db new more same s =
    rw same (all_mono _ _ db.alert_subscriptions (λ x. keep x.destination_id) s)
  where
    keep :
        (o : Option ℕ)
        → or_null (destination_exists db) o ≡ true
        → or_null (destination_exists new) o ≡ true
    keep none h = refl
    keep (some id) h = more id h

pub set_destination-IsServed :
    (id : ℕ) (type name : String) (options : Assoc String String) (db : Db)
    → IsServed db
    → IsServed (set_destination id type name options db)
unfolding set_destination
set_destination-IsServed id type name options db s =
    more-IsServed db (set_destination id type name options db)
      (λ i h. any-update_id id i _ db.notification_destinations (λ d. refl) ∙ h) refl s

pub add_destination-IsServed :
    (org user_id : ℕ) (name type : String) (options : Assoc String String) (db : Db)
    → IsServed db
    → IsServed (add_destination org user_id name type options db)
unfolding add_destination
add_destination-IsServed org user_id name type options db s =
    more-IsServed db (add_destination org user_id name type options db)
      (λ i h.
        any-append (λ (d : NotificationDestination). d.id == i) db.notification_destinations _
        ∙ rw h refl)
      refl s

pub delete_destination-IsServed :
    (id : ℕ) (db : Db)
    → is_subscribed id db ≡ false
    → IsServed db
    → IsServed (delete_destination id db)
unfolding delete_destination is_subscribed
delete_destination-IsServed id db free s =
    all_except _ _ _ db.alert_subscriptions (λ x. keep x.destination_id) free s
  where
    keep :
        (o : Option ℕ)
        → (o == some id) ≡ false
        → or_null (destination_exists db) o ≡ true
        → or_null (destination_exists (delete_destination id db)) o ≡ true
    keep none n h = refl
    keep (some i) n h =
        any_left (λ (d : NotificationDestination). d.id == i) (λ d. d.id == id)
          db.notification_destinations h
          (any_never (λ (d : NotificationDestination). d.id == id && d.id == i)
            db.notification_destinations (λ d. ground (arith, n)))
