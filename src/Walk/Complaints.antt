-- ===== src/Walk/Complaints.antt =====
-- src/pool/snapshot.rs: what a walk complains about. A complaint is the message that the code formats,
-- without its text: the kind, and the numbers in it.
use dbgscope.Base.{ℕ, Option}
use dbgscope.Decode.Vs.{VsRejection}
use dbgscope.Walk.Memory.{SnapshotError}

pub data Complaint : Type 0 where
  -- The trees and the lists.
  cycle_detected : ℕ → Complaint
  limit_reached : Complaint
  unreadable_node : ℕ → SnapshotError → Complaint
  unresolved_field unresolved_header unresolved_depth unresolved_next : Complaint
  unreadable_root unreadable_flag unreadable_head : SnapshotError → Complaint
  corrupt_root : ℕ → Complaint
  short_list : ℕ → ℕ → Complaint
  -- The special pool.
  undecodable_page : ℕ → Complaint
  uncorroborated_size : ℕ → ℕ → Complaint
  -- The slots of a subsegment.
  implausible_unit : ℕ → ℕ → Complaint
  truncated_bitmap : ℕ → Complaint
  -- The chunks of a variable-size subsegment.
  unplaced_extent : ℕ → ℕ → ℕ → Complaint
  lost_extent : ℕ → ℕ → Complaint
  refused_chunk : ℕ → VsRejection → Complaint
  broken_chain : ℕ → ℕ → ℕ → Complaint
  cut_chunk : ℕ → ℕ → ℕ → ℕ → Complaint
  short_chunk : ℕ → ℕ → Complaint
  resynchronised : ℕ → ℕ → Complaint
  broken_chains : ℕ → ℕ → Complaint
  chunk_limit : ℕ → Complaint
  -- The regions.
  unanswered_query : ℕ → ℕ → SnapshotError → Complaint
  partly_committed : ℕ → ℕ → ℕ → ℕ → Complaint
  stalled_query : ℕ → ℕ → ℕ → Complaint
  dead_region : ℕ → ℕ → Complaint
  unreadable_region : ℕ → SnapshotError → Complaint
  sessions_left_out : Complaint
  out_of_time : Option ℕ → ℕ → ℕ → Complaint
