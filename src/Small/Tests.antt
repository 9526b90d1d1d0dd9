-- ===== src/Small/Tests.antt =====
-- The small helpers at work.
use multimux.Base.{ℕ, ◌≡◌, refl, true, none, some, Option, Str, str_eq, codes}
use multimux.Base.Json.{Json, Fields, Item}
use multimux.Small.{
  read_mobile_font_size, write_mobile_font_size, OpenerUrl, parse_opener_origin, parse_server_text,
}

-- A size that is not offered is the default.
odd_size : read_mobile_font_size (write_mobile_font_size Item.absent true 12) ≡ 13
unfolding read_mobile_font_size write_mobile_font_size
odd_size = refl

small_size : read_mobile_font_size (write_mobile_font_size Item.absent true 9) ≡ 9
unfolding read_mobile_font_size write_mobile_font_size
small_size = refl

abbrev plain_http : Str → Option OpenerUrl
plain_http raw =
    some
      (record { protocol = codes "http:"; hostname = codes "evil"; origin = codes "http://evil" })

no_plain_http : parse_opener_origin plain_http (some (codes "http://evil/")) ≡ none
unfolding parse_opener_origin str_eq
no_plain_http = refl

abbrev parse_exit : Str → Option (Json ℕ)
parse_exit s = some (Json.obj (Fields.field (codes "type") (Json.str (codes "exit")) Fields.end))

says_exit : parse_server_text parse_exit (codes "…") ≡ some (codes "exit")
unfolding parse_server_text str_eq
says_exit = refl
