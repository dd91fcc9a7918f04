-- ===== src/Tests/Net.antt =====
-- Runs of the RESP parser.
use mnemos.Prelude.{◌≡◌, ◌≢◌, refl, none, some, [], ◌∷◌, ◌++◌, arith}
use mnemos.Prelude.Bytes.{Bytes}
use mnemos.Net.Resp.SplitArgs.{run, start, split_args}
use mnemos.Net.Resp.SplitArgs.Nul.{split_args-total, split_args_nul}
use mnemos.Net.Resp.Request.{complete, parse, fresh, encode_command}
use mnemos.Net.Resp.Request.Stable.{Extends, parse-append}
use mnemos.Net.Resp.Request.RoundTrip.{parse-encode_command}

abbrev ping : Bytes
ping = b'P' ∷ b'I' ∷ b'N' ∷ b'G' ∷ []

split_ping :
    split_args (ping ++ 32 ∷ b'"' ∷ b'a' ∷ 32 ∷ b'"' ∷ [])
    ≡ some (some (ping ∷ (b'a' ∷ 32 ∷ []) ∷ []))
unfolding split_args
split_ping = refl

split_unbalanced : split_args (b'"' ∷ b'a' ∷ []) ≡ some none
unfolding split_args
split_unbalanced = refl

split_nul : split_args (0 ∷ []) ≡ none
unfolding split_args
split_nul = refl

split_args-total_example : split_args ping ≢ none
split_args-total_example = split_args-total ping (omega arith)

split_args_nul_example : run 1000 (start (ping ++ 0 ∷ [])) ≡ none
split_args_nul_example = split_args_nul ping [] (ground arith) 1000

parse-append_example :
    Extends (parse fresh (b'*' ∷ [])) (b'1' ∷ []) (parse fresh (b'*' ∷ b'1' ∷ []))
parse-append_example = parse-append fresh (b'*' ∷ []) (b'1' ∷ [])

parse-encode_command_example :
    parse fresh (encode_command (ping ∷ []) ++ 7 ∷ []) ≡ complete (ping ∷ []) (7 ∷ [])
parse-encode_command_example = parse-encode_command (ping ∷ []) (7 ∷ []) (omega arith) (omega arith)
