-- ===== src/Tests/Tables.antt =====
-- Runs of the scan cursor, the event classes and the reply writer.
use mnemos.Prelude.{◌≡◌, refl, some, none, [], ◌∷◌}
use mnemos.Prelude.Int.{pos}
use mnemos.Prelude.Decimal.{to_string, decimal}
use mnemos.Core.Dict.Scan.{next_cursor}
use mnemos.Server.Notify.{parse_flags, format_flags}
use mnemos.Net.Resp.Reply.{map_header}

-- Four buckets in the order 0, 2, 1, 3.
in_reverse :
    (next_cursor 3 0 ∷ next_cursor 3 2 ∷ next_cursor 3 1 ∷ next_cursor 3 3 ∷ [])
    ≡ 2 ∷ 1 ∷ 3 ∷ 0 ∷ []
unfolding next_cursor
in_reverse = refl

-- "KEA" comes back as "AKE".
canonical : parse_flags (b'K' ∷ b'E' ∷ b'A' ∷ []) ≡ some 118783
unfolding parse_flags
canonical = refl

respelled : format_flags 118783 ≡ b'A' ∷ b'K' ∷ b'E' ∷ []
unfolding format_flags
respelled = refl

unknown_class : parse_flags (b'K' ∷ b'?' ∷ []) ≡ none
unfolding parse_flags
unknown_class = refl

pairs_flattened : map_header 2 [] (pos 3) ≡ b'*' ∷ b'6' ∷ 13 ∷ 10 ∷ []
unfolding map_header to_string decimal
pairs_flattened = refl
