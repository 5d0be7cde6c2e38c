-- ===== src/Tasks/Tracker/Lists.antt =====
-- In which list a tracker stands, and how long the lists grow.
use redash.Prelude.{
  ℕ, zero, suc, ◌+◌, ◌-◌, min, ◌≡◌, refl, Bool, true, false, ◌||◌, List, [], ◌∷◌, map, arith,
  if◌then◌else◌, ◌==◌, nat_eq, string_eq, list_eq, option_eq, is_some, length, take, drop,
  insert_by, pair_eq, lookup, remove, lookup-remove,
}
use redash.Tasks.Tracker.{
  Tracker, ListName, done, waiting, in_progress, State, SortedSet, Trackers, list_of, set_list,
  zadd, zrem, get_list, zrem_all, save, prune, delete_records,
}

unfoldable pub member : ℕ → SortedSet → Bool
member id l = is_some (lookup id l)

lookup-insert_by :
    (id : ℕ) (p : ℕ × ℕ) (l : SortedSet)
    → member p.0 l ≡ false
    → member id (insert_by (λ q. q.1) p l) ≡ (p.0 == id || member id l)
unfolding member lookup insert_by
lookup-insert_by id (k, v) [] h = ground arith
lookup-insert_by id (k, v) ((j, w) ∷ l) h = ground (arith, lookup-insert_by id (k, v) l)

member-remove :
    (id k : ℕ) (l : SortedSet) → member id (remove k l) ≡ (if k == id then false else member id l)
unfolding member
member-remove id k l = ground (arith, lookup-remove k id l)

member-zadd :
    (id k score : ℕ) (l : SortedSet) → member id (zadd k score l) ≡ (k == id || member id l)
unfolding zadd
member-zadd id k score l =
    ground (
      arith,
      lookup-insert_by id (k, score) (remove k l),
      member-remove k k l,
      member-remove id k l,
    )

abbrev pub same_list : ListName → ListName → Bool
same_list done done = true
same_list waiting waiting = true
same_list in_progress in_progress = true
same_list _ _ = false

save-member_at :
    (t : Tracker) (now : ℕ) (r : Trackers) (state : State) (l : ListName) (id : ℕ)
    → member id (list_of (save (record t { state = state }) now r) l)
      ≡ (if t.task_id == id then same_list l (get_list state) else member id (list_of r l))
unfolding save zrem zrem_all list_of set_list
save-member_at t now r state l id = ground (
  arith,
  member-zadd id t.task_id now r.done_list,
  member-zadd id t.task_id now r.waiting_list,
  member-zadd id t.task_id now r.in_progress_list,
  member-remove id t.task_id r.done_list,
  member-remove id t.task_id r.waiting_list,
  member-remove id t.task_id r.in_progress_list,
)

-- After a save the tracker stands in the list of its state and in neither of the other two, and the
-- lists hold the other trackers as before.
pub save-member :
    (t : Tracker) (now : ℕ) (r : Trackers) (l : ListName) (id : ℕ)
    → member id (list_of (save t now r) l)
      ≡ (if t.task_id == id then same_list l (get_list t.state) else member id (list_of r l))
save-member t now r l id = save-member_at t now r t.state l id

length-drop : {A : Type 0} (n : ℕ) (xs : List A) → length (drop n xs) ≡ length xs - n
length-drop zero xs = omega arith
length-drop (suc n) [] = omega arith
length-drop (suc n) (x ∷ xs) = omega (arith, length-drop n xs)

list_of-set_list : (l : ListName) (s : SortedSet) (r : Trackers) → list_of (set_list l s r) l ≡ s
unfolding list_of set_list
list_of-set_list done s r = refl
list_of-set_list waiting s r = refl
list_of-set_list in_progress s r = refl

-- A pruning removes what the list holds beyond `keep_count`, `max_keys` members at most, and says how many
-- it removed.
pub prune-length :
    (l : ListName) (keep_count max_keys : ℕ) (r : Trackers)
    → let (removed, r') = prune l keep_count max_keys r in
      (removed ≡ min max_keys (length (list_of r l) - keep_count))
      × (length (list_of r' l) + removed ≡ length (list_of r l))
unfolding prune
prune-length l keep_count max_keys r =
    let members = list_of r l in
    let n = min max_keys (length members - keep_count) in
    let r' : Trackers = record r {
      records = delete_records (map (λ (p : ℕ × ℕ). p.0) (take n members)) r.records;
    } in
    (ground arith, ground (arith, length-drop n members, list_of-set_list l (drop n members) r'))
