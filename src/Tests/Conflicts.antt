-- ===== src/Tests/Conflicts.antt =====
-- The conflict resolution on four candidates, with natural numbers for scores.
use Prim.Native.String.{String}
use external_libtextclassifi.Prelude.{
  ℕ, ◌≤◌, ◌<◌, pos, true, false, List, [], ◌∷◌, none, some, ◌≡◌, refl, arith, Pairwise, ltb, ◌==◌,
  sort,
}
use external_libtextclassifi.Span.{spans_overlap, does_candidate_conflict, lower_bound, set_insert}
use external_libtextclassifi.Text.{codes}
use external_libtextclassifi.Conflict.{
  Source, other, duration, datetime, smart, raw, do_sources_conflict, get_priority_score,
  AnnotatedSpan, Annotator,
}
use external_libtextclassifi.Conflict.Groups.{resolve_conflicts}
use external_libtextclassifi.Conflict.Groups.Sound.{
  resolve_conflicts-compatible, resolve_conflicts-maximal,
}
use external_libtextclassifi.Conflict.Groups.Total.{resolve_conflicts_total}
use external_libtextclassifi.Conflict.Resolve.{ScoreLength, gather, resolve_conflict}
use external_libtextclassifi.Conflict.Resolve.Choice.{range_from}
use external_libtextclassifi.Conflict.Resolve.Greedy.{clash}
use external_libtextclassifi.Conflict.Resolve.Maximal.{Settled}
use external_libtextclassifi.Conflict.Resolve.Priority.{
  IsPriorityOrder, Outranked, resolve_conflict-Outranked,
}

abbrev annotator : Annotator ℕ
annotator = record {
  ops = record {
    greater = λ a b. ltb b a;
    equal = λ a b. a == b;
    zero_score = 0;
    lowest_score = 0;
  };
  other_collection_priority_score = none;
  prioritize_longest_annotation = true;
  do_conflict_resolution_in_raw_mode = true;
  model_classify_text =
      λ s. some (record { collection = codes "phone"; score = 1; priority_score = 2 } ∷ []);
}

abbrev item : ℕ → ℕ → String → ℕ → Source → AnnotatedSpan ℕ
item first second collection score source = record {
  span = record { first = pos first; second = pos second };
  classification = record { collection = codes collection; score = 1; priority_score = score } ∷ [];
  source = source;
}

-- "in 3 hours call 5550100": a date, a duration inside it, the model's phone number, a flight.
abbrev four : List (AnnotatedSpan ℕ)
four =
    item 0 10 "datetime" 3 datetime
    ∷ item 3 10 "duration" 1 duration
    ∷ record {
      span = record { first = pos 16; second = pos 23 };
      classification = [];
      source = other;
    }
    ∷ item 18 23 "flight" 1 other
    ∷ []

resolve_smart : resolve_conflicts annotator four smart ≡ some (0 ∷ 2 ∷ [])
unfolding resolve_conflicts spans_overlap does_candidate_conflict lower_bound set_insert
    do_sources_conflict get_priority_score sort
resolve_smart = refl

resolve_raw : resolve_conflicts annotator four raw ≡ some (0 ∷ 1 ∷ 2 ∷ [])
unfolding resolve_conflicts spans_overlap does_candidate_conflict lower_bound set_insert
    do_sources_conflict get_priority_score sort
resolve_raw = refl

resolve_conflicts-compatible_example :
    Pairwise (λ c d. clash annotator four smart c d ≡ false) (0 ∷ 2 ∷ [])
resolve_conflicts-compatible_example =
    resolve_conflicts-compatible annotator four smart (omega arith) resolve_smart

resolve_conflicts-maximal_example : Settled annotator four smart (0 ∷ 2 ∷ []) 3
resolve_conflicts-maximal_example =
    resolve_conflicts-maximal annotator four smart 3 (omega arith) resolve_smart (omega arith)

resolve_conflicts_total_example : (r : List ℕ) × (resolve_conflicts annotator four smart ≡ some r)
resolve_conflicts_total_example =
    resolve_conflicts_total annotator four smart
      (λ s. record { collection = codes "phone"; score = 1; priority_score = 2 } ∷ []) (λ s. refl)
      (omega arith)

-- The phone number and the flight are one group.
resolve_group : resolve_conflict annotator four smart 2 4 ≡ some (2 ∷ [])
unfolding resolve_conflict spans_overlap does_candidate_conflict lower_bound set_insert
    do_sources_conflict get_priority_score sort
resolve_group = refl

order : IsPriorityOrder annotator.ops
order = record {
  asymm = λ x y h. ground arith;
  trans = λ x y z h k. ground arith;
  level = λ x y h. ground arith;
  equal_of = λ x y h k. ground arith;
  symm = λ x y h. ground arith;
}

resolve_conflict-Outranked_example :
    (scores : List (ℕ × ScoreLength ℕ)) × (gather annotator four 2 2 [] []
      ≡ some (range_from 2 2, scores))
    × ((k : ℕ) → 2 ≤ k → k < 4 → Outranked annotator four scores smart (2 ∷ []) k)
resolve_conflict-Outranked_example =
    resolve_conflict-Outranked annotator four smart 2 4 order resolve_group
