-- ===== src/Snapshot/Tests.antt =====
-- Two messages of one shape, and a walk that looks for two matches.
use dbgscope.Base.{ℕ, ◌≡◌, refl, true, false, none, some, List, [], ◌∷◌, length}
use dbgscope.Snapshot.{PoolDiagnostics, from_iter, emitted, total_over}
use dbgscope.Pool.{PoolKind, PoolBackend, PoolState, PoolSpan}
use dbgscope.Snapshot.Spans.{PoolSnapshot, record_span, match_limit_reached}
use dbgscope.Snapshot.Spans.Matches.{IsCounted, record_span-IsCounted}
use dbgscope.Snapshot.Counts.{kept, from_iter-emitted}

abbrev two_nodes : List (List ℕ)
two_nodes = (b'n' ∷ b' ' ∷ b'1' ∷ []) ∷ (b'n' ∷ b' ' ∷ b'2' ∷ []) ∷ []

from_iter-emitted_example :
    (d : PoolDiagnostics) × (from_iter two_nodes ≡ some d)
    × (emitted d ≡ length two_nodes)
    × (length d.examples ≡ total_over kept d.shapes)
from_iter-emitted_example = from_iter-emitted two_nodes

abbrev tagged_span : PoolSpan
tagged_span = record {
  header_address = 0x1000;
  usable_address = 0x1010;
  size = 0x20;
  requested_size = none;
  raw_tag = 7;
  display_tag = [];
  pool_kind = PoolKind.paged;
  numa_node = 0;
  heap = record { pool_state = 1; heap = 2; special = false };
  subsegment = none;
  backend = PoolBackend.lfh;
  state = PoolState.allocated;
  size_class = 0x30;
}

abbrev searching : PoolSnapshot ℕ ℕ
searching = record {
  layout = 0;
  spans = [];
  diagnostics = 0;
  complete = true;
  budget_expired = false;
  stopped_after_matches = none;
  match_limit = some (record { raw_tag = 7; paged = some true; matches = 1 });
  matched_allocations = 0;
  stalls = record { pages = 0; skipped_bytes = 0; recovered_bytes = 0 };
  refused_chunks = 0;
  unplaced_bytes = 0;
}

searching-IsCounted : IsCounted searching
unfolding match_limit_reached
searching-IsCounted = (refl, refl, refl)

record_span-IsCounted_example : IsCounted (record_span searching tagged_span)
record_span-IsCounted_example = record_span-IsCounted searching tagged_span searching-IsCounted
