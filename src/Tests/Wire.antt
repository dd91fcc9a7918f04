-- ===== src/Tests/Wire.antt =====
-- Runs of the Kafka reader and writer.
use mnemos.Prelude.{◌≡◌, refl, false, [], ◌∷◌, ◌++◌, arith}
use mnemos.Prelude.Int.{pos, negsuc}
use mnemos.Kafka.Wire.{
  RequestHeader, read_varlong, write_int16, write_int32, write_varlong, write_string,
  parse_request_header,
}
use mnemos.Kafka.Wire.RoundTrip.{reader, parse_request_header-write}

abbrev fetch : RequestHeader
fetch = record {
  api_key = pos 1;
  api_version = pos 4;
  correlation_id = pos 70000;
  client_id = b'm' ∷ b'e' ∷ [];
}

parse_request_header-write_example :
    parse_request_header (
      reader (
        write_string
          (write_int32 (write_int16 (write_int16 [] (pos 1)) (pos 4)) (pos 70000))
          (b'm' ∷ b'e' ∷ [])
        ++ 5 ∷ []))
    ≡ (fetch, reader (5 ∷ []))
parse_request_header-write_example =
    parse_request_header-write fetch (5 ∷ []) (omega arith) (omega arith) (omega arith)
      (omega arith)

-- -300 has the zigzag number 599.
groups_599 : write_varlong [] (negsuc 299) ≡ 215 ∷ 4 ∷ []
unfolding write_varlong
groups_599 = refl

too_long :
    (read_varlong
      (reader (128 ∷ 128 ∷ 128 ∷ 128 ∷ 128 ∷ 128 ∷ 128 ∷ 128 ∷ 128 ∷ 128 ∷ 0 ∷ []))).1.is_ok
    ≡ false
unfolding read_varlong
too_long = refl
