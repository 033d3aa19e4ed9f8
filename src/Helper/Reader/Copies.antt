-- ===== src/Helper/Reader/Copies.antt =====
-- helper/restore_helper.go: where a copy and a change of position leave the reader.
use gpbackup.Base.{
  take, ℕ, zero, suc, ◌+◌, ◌-◌, ◌%◌, ◌≤◌, ◌<◌, ◌≡◌, refl, ◌≢◌, false, Option, none, some, List, [],
  ◌∷◌, arith, ltb, nat_comparable, string_comparable, length, drop,
}
use gpbackup.Base.Words.{i64_limit, u64}
use gpbackup.Helper.{value}
use gpbackup.Helper.Reader.{
  subset, RestoreReader, Copied, unread, advance, is_negative, seek, discard, copy_bytes,
  position_reader, copy_n,
}

pub length-take : (n : ℕ) (xs : List ℕ) → n ≤ length xs → length (take n xs) ≡ n
length-take zero xs h = refl
length-take (suc n) [] h = absurd (omega arith)
length-take (suc n) (x ∷ xs) h = omega (arith, length-take n xs)

pub length-drop : (n : ℕ) (xs : List ℕ) → length (drop n xs) ≡ length xs - n
length-drop zero xs = omega arith
length-drop (suc n) [] = omega arith
length-drop (suc n) (x ∷ xs) = omega (arith, length-drop n xs)

-- A copy of bytes that the source has: the reader moves by the bytes read, and without an error
-- all of them are copied.
unfoldable pub Moves : ℕ → RestoreReader → Copied → Type 0
Moves num r c =
    (c.reader ≡ advance c.bytes_read r)
    × (c.bytes_read ≤ num)
    × (c.err ≡ none → (c.bytes ≡ take num (unread r)) × (c.bytes_read ≡ num))

copy_bytes-Moves :
    (breaks : Option ℕ) (num : ℕ) (taken : List ℕ) (r : RestoreReader)
    → taken ≡ take num (unread r)
    → length taken ≡ num
    → Moves num r (copy_bytes breaks taken none r)
unfolding copy_bytes Moves
copy_bytes-Moves none num taken r same room = (refl, omega arith, λ e. (same, room))
copy_bytes-Moves (some k) num taken r same room = ground arith

pub copy_n-Moves :
    (breaks : Option ℕ) (num : ℕ) (r : RestoreReader)
    → is_negative num ≡ false
    → num ≤ length (unread r)
    → Moves num r (copy_n breaks num r)
unfolding copy_n
copy_n-Moves breaks num r fits room =
    let all = length-take num (unread r) room in
    let enough : ltb (length (unread r)) num ≡ false = ground arith in
    rw (copy_n, fits, enough) (copy_bytes-Moves breaks num (take num (unread r)) r refl all)

-- A reader that is moved by the distance from its position to an offset, in 64-bit arithmetic,
-- stands at the offset, unless the move is refused.
pub position_reader-lands :
    (start : ℕ) (r moved : RestoreReader)
    → r.reader_type ≢ subset
    → start < i64_limit
    → r.position < i64_limit
    → position_reader ((start + u64 - r.position) % u64) r ≡ value moved
    → moved ≡ record r { position = start }
unfolding position_reader seek discard
position_reader-lands start r moved other low lowpos h = ground arith

-- With nothing in its way, a copy of bytes that the source has is whole.
pub copy_n-whole :
    (num : ℕ) (r : RestoreReader)
    → is_negative num ≡ false
    → num ≤ length (unread r)
    → copy_n none num r
      ≡ record { bytes_read = num; bytes = take num (unread r); err = none; reader = advance num r }
unfolding copy_n copy_bytes
copy_n-whole num r fits room =
    let all = length-take num (unread r) room in
    let enough : ltb (length (unread r)) num ≡ false = ground arith in
    rw (copy_n, fits, enough, copy_bytes, all) refl

-- A move forward within the source is not refused.
pub position_reader-reaches :
    (start : ℕ) (r : RestoreReader)
    → r.reader_type ≢ subset
    → r.position ≤ start
    → start ≤ length r.source
    → length r.source < i64_limit
    → position_reader ((start + u64 - r.position) % u64) r ≡ value (record r { position = start })
unfolding position_reader seek discard
position_reader-reaches start r other ahead within limit =
    ground (arith, length-drop r.position r.source)
