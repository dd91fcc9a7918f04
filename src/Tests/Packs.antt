-- ===== src/Tests/Packs.antt =====
-- Runs of the listpack and of the glob matcher.
use mathlib.Core.List.{reverse}
use mnemos.Prelude.{
  ℕ, ◌+◌, ◌≡◌, ◌↔◌, refl, Bool, true, false, some, List, [], ◌∷◌, ◌++◌, length, arith,
}
use mnemos.Prelude.Bytes.{Bytes, codes}
use mnemos.Core.Listpack.{
  decode_entry, build_entry, build_integer_entry, with_backlen, decode_backlen_backwards,
}
use mnemos.Core.Listpack.Accepts.{from_bytes_sound, from_bytes-Represents}
use mnemos.Core.Listpack.Backlen.{decode_backlen_backwards-with_backlen}
use mnemos.Core.Listpack.Buffer.{Listpack, clear, to_strings, num_elements, find}
use mnemos.Core.Listpack.Edits.{append, from_bytes}
use mnemos.Core.Listpack.Entry.{element_of, decode_entry-build_entry}
use mnemos.Core.Listpack.Layout.{Entry, Represents}
use mnemos.Core.Listpack.Search.{first_equal}
use mnemos.Core.Listpack.Strings.{
  Edit, push, insert, replace, erase, apply_edits, edit_all, apply_edits-edit_all,
}
use mnemos.Core.Listpack.Writes.{clear-Represents}
use mnemos.Core.Glob.{glob_match}
use mnemos.Core.Glob.Loop.{glob_match-Matches}
use mnemos.Core.Glob.Matching.{Matches}

-- A year, stored as an integer, and a word.
abbrev year : Bytes
year = codes "2024"

abbrev word : Bytes
word = codes "abc"

year_entry : build_entry year ≡ 0xC7 ∷ 0xE8 ∷ 2 ∷ []
unfolding build_entry with_backlen mnemos.Core.Listpack.payload_of
    mnemos.Core.Encoding.string_to_int64 mnemos.Core.Listpack.encode_integer
    mnemos.Core.Listpack.encode_backlen
year_entry = refl

decode_entry-build_entry_example :
    decode_entry (build_entry year ++ 0xFF ∷ []) ≡ some (element_of year, length (build_entry year))
decode_entry-build_entry_example = decode_entry-build_entry year (0xFF ∷ []) (omega arith)

decode_backlen_backwards-with_backlen_example :
    (read : ℕ × ℕ) × (decode_backlen_backwards (reverse (with_backlen word) ++ 0 ∷ []) ≡ some read)
    × (read.0 ≡ length word)
    × (read.0 + read.1 ≡ length (with_backlen word))
decode_backlen_backwards-with_backlen_example =
    decode_backlen_backwards-with_backlen word (0 ∷ []) (omega arith)

abbrev edits : List Edit
edits = push year ∷ insert 0 word ∷ replace 5 word ∷ push word ∷ erase 0 1 ∷ []

-- The replacement behind the end fails.
edited : edit_all edits [] ≡ (true ∷ true ∷ false ∷ true ∷ true ∷ [], year ∷ word ∷ [])
unfolding edit_all mnemos.Core.Listpack.Strings.edit_list
edited = refl

apply_edits-edit_all_example :
    let (oks, lp) = apply_edits edits clear in
    let (wanted, ss) = edit_all edits [] in
    (oks ≡ wanted)
    × (to_strings lp ≡ ss)
    × (num_elements lp ≡ length ss)
    × (find lp word 0 1 ≡ first_equal word 0 1 0 ss)
apply_edits-edit_all_example = apply_edits-edit_all edits word 0 1 (omega arith)

from_bytes-Represents_example : from_bytes (clear.buffer) ≡ some clear
unfolding clear mnemos.Core.Listpack.Buffer.set_num_elements
    mnemos.Core.Listpack.Buffer.set_total_bytes mnemos.Core.IntSet.append_le
from_bytes-Represents_example = from_bytes-Represents clear [] clear-Represents (omega arith)

-- A number, whose backlen is 9 and not 1: the bytes are accepted.
abbrev bad_backlen : Bytes
bad_backlen = 9 ∷ 0 ∷ 0 ∷ 0 ∷ 1 ∷ 0 ∷ 5 ∷ 9 ∷ 0xFF ∷ []

accepted : from_bytes bad_backlen ≡ some (record { buffer = bad_backlen })
unfolding from_bytes mnemos.Core.IntSet.read_le32 mnemos.Core.Listpack.Buffer.at_end
    mnemos.Core.Listpack.Edits.accept mnemos.Core.Listpack.Edits.check_from
    mnemos.Core.Listpack.Edits.check_found mnemos.Core.Listpack.Buffer.decode_at decode_entry
    mnemos.Core.Listpack.sized_entry mnemos.Core.Listpack.decode_payload
    mnemos.Core.Listpack.encode_backlen mnemos.Core.Listpack.Buffer.stored_count
    mnemos.Core.IntSet.from_le
accepted = refl

from_bytes_sound_example :
    (bad_backlen ≡ bad_backlen)
    × (es : List Entry) × Represents (record { buffer = bad_backlen }) es
from_bytes_sound_example =
    from_bytes_sound bad_backlen (record { buffer = bad_backlen }) (omega arith) accepted

abbrev pattern_bytes : Bytes
pattern_bytes = codes "*[a-c]?\\*"

globs : glob_match pattern_bytes (codes "xxbY*") false ≡ some true
unfolding glob_match mnemos.Core.Glob.glob_loop mnemos.Core.Glob.round mnemos.Core.Glob.front
    mnemos.Core.Glob.skip_stars mnemos.Core.Glob.unit_step mnemos.Core.Glob.class_step
    mnemos.Core.Glob.class_result mnemos.Core.Glob.class_loop mnemos.Core.Glob.class_round
    mnemos.Core.Glob.piece mnemos.Core.Glob.in_range mnemos.Core.Glob.fold mnemos.Core.Glob.retry
    mnemos.Core.Glob.tail mnemos.Core.Glob.literal_step mnemos.Core.Glob.same_char
    mnemos.Core.Glob.is_empty
globs = refl

-- "[" does not match "[".
open_bracket : glob_match (codes "[") (codes "[") false ≡ some false
unfolding glob_match mnemos.Core.Glob.glob_loop mnemos.Core.Glob.round mnemos.Core.Glob.front
    mnemos.Core.Glob.unit_step mnemos.Core.Glob.class_step mnemos.Core.Glob.class_result
    mnemos.Core.Glob.class_loop mnemos.Core.Glob.class_round mnemos.Core.Glob.piece
    mnemos.Core.Glob.retry
open_bracket = refl

glob_match-Matches_example :
    (b : Bool) × (glob_match pattern_bytes (codes "xxbY*") true ≡ some b)
    × ((b ≡ true) ↔ Matches true pattern_bytes (codes "xxbY*"))
glob_match-Matches_example = glob_match-Matches pattern_bytes (codes "xxbY*") true
