-- ===== src/Examples/Content.antt =====
-- Requests on permissions, alerts, favourites, visualizations and widgets, and the clean-up of tasks.
use redash.Prelude.{◌≡◌, true, false, none, [], ◌∷◌, nat_eq, string_eq, list_eq, option_eq, pair_eq}
use redash.Examples.Rows.{ada, in_2020}
use redash.Permissions.{Principal, user}
use redash.Tasks.Tracker.{Tracker, create, started}
use redash.Tasks.Enqueue.{Broker}
use redash.Tasks.Cleanup.{cleanup_tasks}
use redash.Tasks.Cleanup.Settled.{lacks_record, ends_well, cleanup_tasks-has_ended}

-- Another member, who owns nothing.
abbrev as_other : Principal
as_other = user (record ada { id = 3; group_ids = 2 ∷ [] })

-- A broker with one tracker in progress, whose task is over.
abbrev over : Tracker
over = record (create 42 "h" 5 false none in_2020) { state = started }

abbrev broker : Broker
broker = record {
  locks = (("h", 5), 42) ∷ [];
  trackers = record {
    records = (42, over) ∷ [];
    done_list = [];
    waiting_list = [];
    in_progress_list = (42, 1) ∷ [];
  };
  submitted = [];
  next_job = 43;
  ready = 42 ∷ [];
}

cleanup_tasks-has_ended_example :
    ends_well (lacks_record in_2020 broker) (cleanup_tasks in_2020 broker) ≡ true
cleanup_tasks-has_ended_example = cleanup_tasks-has_ended in_2020 broker
