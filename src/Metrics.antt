-- ===== src/Metrics.antt =====
-- metrics.go and latency-metrics.go: the counters of a process, as the values that a sequence of
-- atomic operations leaves. A counter is an `int64`, which wraps.
pub mod Maximum
use go_webhook_processor.Prelude.{ℕ, Bool, List, [], ◌∷◌, if◌then◌else◌}
use go_webhook_processor.Prelude.Int.{ℤ, pos, ◌+ℤ◌, ltb_ℤ, eqb_ℤ, wrap64}

pub record ProcessingLatency : Type 0 where
  pub count : ℤ
  pub sum_ns : ℤ
  pub max_ns : ℤ

pub record Metrics : Type 0 where
  pub events_queued : ℤ
  pub events_rejected : ℤ
  pub events_duplicated : ℤ
  pub events_skipped_duplicate : ℤ
  pub events_processed : ℤ
  pub events_failed_permanent : ℤ
  pub event_retries : ℤ
  pub dead_letter_replays : ℤ
  pub dead_letter_replay_rejected : ℤ
  pub dead_letter_auto_retries : ℤ
  pub dead_letter_auto_retry_failed : ℤ
  pub processing_latency : ProcessingLatency

abbrev pub new_metrics : Metrics
new_metrics = record {
  events_queued = pos 0;
  events_rejected = pos 0;
  events_duplicated = pos 0;
  events_skipped_duplicate = pos 0;
  events_processed = pos 0;
  events_failed_permanent = pos 0;
  event_retries = pos 0;
  dead_letter_replays = pos 0;
  dead_letter_replay_rejected = pos 0;
  dead_letter_auto_retries = pos 0;
  dead_letter_auto_retry_failed = pos 0;
  processing_latency = record { count = pos 0; sum_ns = pos 0; max_ns = pos 0 };
}

-- `counter.Add(n)`.
unfoldable pub add : ℤ → ℤ → ℤ
add n counter = wrap64 (counter +ℤ n)

abbrev pub inc : ℤ → ℤ
inc = add (pos 1)

abbrev pub inc_events_queued : Metrics → Metrics
inc_events_queued m = record m { events_queued = inc m.events_queued }

abbrev pub inc_events_rejected : Metrics → Metrics
inc_events_rejected m = record m { events_rejected = inc m.events_rejected }

abbrev pub inc_events_duplicated : Metrics → Metrics
inc_events_duplicated m = record m { events_duplicated = inc m.events_duplicated }

abbrev pub inc_events_skipped_duplicate : Metrics → Metrics
inc_events_skipped_duplicate m = record m {
  events_skipped_duplicate = inc m.events_skipped_duplicate;
}

abbrev pub inc_events_processed : Metrics → Metrics
inc_events_processed m = record m { events_processed = inc m.events_processed }

abbrev pub inc_events_failed_permanent : Metrics → Metrics
inc_events_failed_permanent m = record m { events_failed_permanent = inc m.events_failed_permanent }

abbrev pub inc_event_retries : Metrics → Metrics
inc_event_retries m = record m { event_retries = inc m.event_retries }

abbrev pub inc_dead_letter_replays : Metrics → Metrics
inc_dead_letter_replays m = record m { dead_letter_replays = inc m.dead_letter_replays }

abbrev pub inc_dead_letter_replay_rejected : Metrics → Metrics
inc_dead_letter_replay_rejected m = record m {
  dead_letter_replay_rejected = inc m.dead_letter_replay_rejected;
}

abbrev pub inc_dead_letter_auto_retries : Metrics → Metrics
inc_dead_letter_auto_retries m = record m {
  dead_letter_auto_retries = inc m.dead_letter_auto_retries;
}

abbrev pub inc_dead_letter_auto_retry_failed : Metrics → Metrics
inc_dead_letter_auto_retry_failed m = record m {
  dead_letter_auto_retry_failed = inc m.dead_letter_auto_retry_failed;
}

-- What the last operation of a loop found in the counter and left there, and what the counter holds
-- after the other goroutines later on.
pub record Raise : Type 0 where
  pub found : ℤ
  pub left : ℤ
  pub later : List ℤ

abbrev leave : ℤ → ℤ → List ℤ → Raise
leave found left later = record { found = found; left = left; later = later }

-- The compare-and-swap loop on the maximum, from the load that answered `current`. Each value of the
-- list is what the counter holds, after the other goroutines, when the loop's next atomic operation
-- comes to it: a swap, and the load after a swap that failed. With the list used up nobody else
-- stores.
unfoldable pub raise_max : List ℤ → ℤ → ℤ → Raise
raise_max [] ns current = if ltb_ℤ current ns then leave current ns [] else leave current current []
raise_max (met ∷ []) ns current =
    let again = raise_max [] ns met in
    if ltb_ℤ current ns
    then if eqb_ℤ met current then leave met ns [] else again
    else leave current current (met ∷ [])
raise_max (met ∷ loaded ∷ others) ns current =
    let again = raise_max others ns loaded in
    if ltb_ℤ current ns
    then if eqb_ℤ met current then leave met ns (loaded ∷ others) else again
    else leave current current (met ∷ loaded ∷ others)

-- The same with no other goroutine in between.
unfoldable pub observe_event_processing_duration : ℤ → Metrics → Metrics
unfolding add raise_max
observe_event_processing_duration ns m = record m {
  processing_latency = record {
    count = add (pos 1) m.processing_latency.count;
    sum_ns = add ns m.processing_latency.sum_ns;
    max_ns = (raise_max [] ns m.processing_latency.max_ns).left;
  };
}

pub record MetricsResponse : Type 0 where
  pub events_queued : ℤ
  pub events_rejected : ℤ
  pub events_duplicated : ℤ
  pub events_skipped_duplicate : ℤ
  pub events_processed : ℤ
  pub events_failed_permanent : ℤ
  pub event_retries : ℤ
  pub dead_letter_replays : ℤ
  pub dead_letter_replay_rejected : ℤ
  pub dead_letter_auto_retries : ℤ
  pub dead_letter_auto_retry_failed : ℤ
  pub queue_length : ℤ
  pub queue_capacity : ℤ

unfoldable pub snapshot : ℤ → ℤ → Metrics → MetricsResponse
snapshot queue_length queue_capacity m = record {
  events_queued = m.events_queued;
  events_rejected = m.events_rejected;
  events_duplicated = m.events_duplicated;
  events_skipped_duplicate = m.events_skipped_duplicate;
  events_processed = m.events_processed;
  events_failed_permanent = m.events_failed_permanent;
  event_retries = m.event_retries;
  dead_letter_replays = m.dead_letter_replays;
  dead_letter_replay_rejected = m.dead_letter_replay_rejected;
  dead_letter_auto_retries = m.dead_letter_auto_retries;
  dead_letter_auto_retry_failed = m.dead_letter_auto_retry_failed;
  queue_length = queue_length;
  queue_capacity = queue_capacity;
}
