-- ===== src/Extension/Tests.antt =====
-- `!poolmap -tag Tgsm` and runs of the parser.
use dbgscope.Base.{◌∷◌, ◌++◌, some, ok, ◌≡◌, arith}
use dbgscope.Decode.Tags.{space, tag_label}
use dbgscope.Extension.{parse_args, no_arguments, arg_tag}
use dbgscope.Extension.Label.{parse_args-tag_label}

-- A tag with a byte that does not print, whose label is the raw form.
parse_args-tag_label_example :
    parse_args (arg_tag ++ (space ∷ tag_label 0x5467_0001))
    ≡ ok (record no_arguments { tag = some 0x5467_0001 })
parse_args-tag_label_example = parse_args-tag_label 0x5467_0001 (omega arith)
