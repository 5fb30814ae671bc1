-- ===== src/KernelAttach/Tests.antt =====
-- An announcement that arrives in two pieces.
use dbgscope.Base.{ℕ, List, [], ◌∷◌, ◌++◌, ◌≡◌, refl, true, false, drop, if◌then◌else◌}
use dbgscope.KernelAttach.{Notice, new_notice, feed, prefix, debug_output_normal}
use dbgscope.KernelAttach.Steps.{announced}
use dbgscope.KernelAttach.Announcement.{feed-announced, feed-append}

-- A line that only mentions the prefix, and then one that begins with it.
abbrev two_lines : List ℕ
two_lines = b'>' ∷ prefix ++ (0x0a ∷ prefix ++ (b'8' ∷ []))

feed-announced_example :
    (feed new_notice debug_output_normal two_lines).1 ≡ announced true two_lines
feed-announced_example = feed-announced two_lines

abbrev halfway : Notice
halfway = record { matched = 4; skip_line = false; fired = false }

feed-append_example : feed halfway debug_output_normal (drop 4 prefix ++ (b'8' ∷ [])) ≡ (
    if (feed halfway debug_output_normal (drop 4 prefix)).1
    then feed halfway debug_output_normal (drop 4 prefix)
    else feed (feed halfway debug_output_normal (drop 4 prefix)).0 debug_output_normal (b'8' ∷ []))
feed-append_example = feed-append (drop 4 prefix) (b'8' ∷ []) halfway refl
