-- ===== src/Encoder/Tests.antt =====
-- The theorem on flb_log_event_encoder_primitives.h at fields that count the operations done to them.
use my_repo.Base.{ℕ, ◌+◌, ◌≡◌, refl, ◌==◌, if◌then◌else◌}
use my_repo.Encoder.{
  set_metadata, DynamicField, success, invalid_argument, begin_map, commit_map, rollback_map,
  begin_array, commit_array, rollback_array, set_body, set_root, body_target, root_target,
  serialization_failure,
}
use my_repo.Encoder.Targets.{Does, dispatch_lem}

abbrev counting : DynamicField ℕ ℕ
counting = record {
  begin_map = λ n. (success, n + 1);
  commit_map = λ n. (success, n + 10);
  rollback_map = λ n. (success, n + 20);
  begin_array = λ n. (success, n + 100);
  commit_array = λ n. (success, n + 1000);
  rollback_array = λ n. (invalid_argument, n);
  reset = λ n. (success, 0);
  flush = λ n. (success, n + 5);
  append = λ e target v.
      if target == body_target
      then (success, record e { body = e.body + v })
      else if target == root_target
      then (success, record e { root = e.root + v })
      else (serialization_failure, e);
}

dispatch_lem_example :
    Does counting (begin_map counting) counting.begin_map
    × Does counting (commit_map counting) counting.commit_map
    × Does counting (rollback_map counting) counting.rollback_map
    × Does counting (begin_array counting) counting.begin_array
    × Does counting (commit_array counting) counting.commit_array
    × Does counting (rollback_array counting) counting.rollback_array
dispatch_lem_example = dispatch_lem counting

-- The root takes the value, and the other fields are emptied.
root_run :
    set_root counting (record { metadata = 3; body = 4; root = 5 }) 40
    ≡ (success, record { metadata = 0; body = 0; root = 45 })
unfolding set_root
root_run = refl

body_run :
    set_body counting (record { metadata = 3; body = 4; root = 5 }) 40
    ≡ (success, record { metadata = 3; body = 45; root = 5 })
unfolding set_body
body_run = refl

-- After an append that fails the field is not flushed.
metadata_run :
    set_metadata counting (record { metadata = 3; body = 4; root = 5 }) 40
    ≡ (serialization_failure, record { metadata = 0; body = 4; root = 5 })
unfolding set_metadata
metadata_run = refl
