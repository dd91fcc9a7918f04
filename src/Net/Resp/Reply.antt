-- ===== src/Net/Resp/Reply.antt =====
-- `ReplyWriter` of src/net/resp.h and resp.cpp, but for `doubleValue`. A writer is the bytes that it
-- appends to; a method returns the longer ones. `protover` is the protocol version.
use mnemos.Prelude.{ℕ, ◌+◌, Bool, List, [], ◌∷◌, ◌++◌, length, take, ltb, leb, if◌then◌else◌}
use mnemos.Prelude.Bytes.{Bytes}
use mnemos.Prelude.Int.{ℤ, pos, negsuc}
use mnemos.Prelude.Decimal.{to_string}

abbrev crlf : Bytes
crlf = 13 ∷ 10 ∷ []

append_line : Bytes → ℕ → Bytes → Bytes
append_line out prefix body = out ++ prefix ∷ (body ++ crlf)

append_count : Bytes → ℕ → ℤ → Bytes
append_count out prefix n = out ++ prefix ∷ (to_string n ++ crlf)

abbrev twice : ℤ → ℤ
twice (pos n) = pos (n + n)
twice (negsuc n) = negsuc (n + n + 1)

unfoldable pub simple_string : Bytes → Bytes → Bytes
unfolding append_line
simple_string out s = append_line out b'+' s

unfoldable pub error : Bytes → Bytes → Bytes
unfolding append_line
error out msg = append_line out b'-' msg

unfoldable pub integer : Bytes → ℤ → Bytes
unfolding append_count
integer out n = append_count out b':' n

unfoldable pub bulk : Bytes → Bytes → Bytes
unfolding append_count
bulk out s = (append_count out b'$' (pos (length s)) ++ s) ++ crlf

unfoldable pub array_header : Bytes → ℤ → Bytes
unfolding append_count
array_header out n = append_count out b'*' n

bulks : Bytes → List Bytes → Bytes
unfolding bulk
bulks out [] = out
bulks out (s ∷ items) = bulks (bulk out s) items

unfoldable pub bulk_array : Bytes → List Bytes → Bytes
unfolding array_header bulks
bulk_array out items = bulks (array_header out (pos (length items))) items

module _ (protover : ℕ) where
  unfoldable pub verbatim : Bytes → Bytes → Bytes → Bytes
  unfolding bulk append_count
  verbatim out s format =
      if ltb protover 3
      then bulk out s
      else (((append_count out b'=' (pos (length s + 4)) ++ take 3 format) ++ b':' ∷ []) ++ s)
        ++ crlf

  unfoldable pub null_bulk : Bytes → Bytes
  null_bulk out = if leb 3 protover then out ++ b'_' ∷ crlf else out ++ b'$' ∷ b'-' ∷ b'1' ∷ crlf

  unfoldable pub null_array : Bytes → Bytes
  null_array out = if leb 3 protover then out ++ b'_' ∷ crlf else out ++ b'*' ∷ b'-' ∷ b'1' ∷ crlf

  unfoldable pub map_header : Bytes → ℤ → Bytes
  unfolding append_count
  map_header out pairs =
      if leb 3 protover then append_count out b'%' pairs else append_count out b'*' (twice pairs)

  unfoldable pub set_header : Bytes → ℤ → Bytes
  unfolding append_count
  set_header out n = if leb 3 protover then append_count out b'~' n else append_count out b'*' n

  unfoldable pub push_header : Bytes → ℤ → Bytes
  unfolding append_count
  push_header out n = if leb 3 protover then append_count out b'>' n else append_count out b'*' n

  unfoldable pub boolean : Bytes → Bool → Bytes
  boolean out b =
      if leb 3 protover
      then out ++ b'#' ∷ (if b then b't' else b'f') ∷ crlf
      else out ++ b':' ∷ (if b then b'1' else b'0') ∷ crlf

  unfoldable pub big_number : Bytes → Bytes → Bytes
  unfolding append_line bulk
  big_number out digits = if leb 3 protover then append_line out b'(' digits else bulk out digits
