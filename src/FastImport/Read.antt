-- ===== src/FastImport/Read.antt =====
-- A reader of the `blob` commands of the git-fast-import format, as git documents it, and what it
-- reads from what the writer of git-fast-import/src writes.
use git_cvs_fast_import.Prelude.{
  ℕ, zero, suc, ◌+◌, ◌≤◌, ◌<◌, List, [], ◌∷◌, ◌++◌, Option, none, some, Bytes, codes, newline,
  length, take, drop, All, true, false, ◌==◌, ltb, leb, if◌then◌else◌, ◌≡◌, refl, sym, ap, arith,
  ok, map, append_assoc, append-nil, take-append, drop-append, length-append,
}
use git_cvs_fast_import.Decimal.{
  to_string, parse_u64, max_u64, parse_u64-to_string, to_string-IsDigit, IsDigit,
}
use git_cvs_fast_import.FastImport.{Writer, Command, command, increment, run, line}
use git_cvs_fast_import.FastImport.Blob.{write}

-- The bytes up to the first newline, and what follows it.
unfoldable pub take_line : Bytes → Bytes × Bytes
take_line [] = ([], [])
take_line (c ∷ s) =
    let rest = take_line s in elim (c == newline) [ true ↦ ([], s) | false ↦ (c ∷ rest.0, rest.1) ]

-- What follows a prefix.
unfoldable pub strip : Bytes → Bytes → Option Bytes
strip [] s = some s
strip (p ∷ ps) [] = none
strip (p ∷ ps) (c ∷ s) = let rest = strip ps s in if c == p then rest else none

infixl 5 ◌>>?◌
abbrev pub ◌>>?◌ {ℓ κ} : {A : Type ℓ} {B : Type κ} → Option A → (A → Option B) → Option B
none >>? f = none
some a >>? f = f a

-- A number on a line that starts with a word.
unfoldable pub read_number : Bytes → Bytes → Option (ℕ × Bytes)
unfolding take_line strip
read_number word s =
    strip word (take_line s).0 >>? λ digits. parse_u64 digits >>? λ n. some (n, (take_line s).1)

-- `data <count>`, the bytes, and a newline.
unfoldable pub read_data : Bytes → Option (Bytes × Bytes)
unfolding read_number strip
read_data s = read_number (codes "data ") s >>? λ (n, s).
    if leb n (length s)
    then (strip (newline ∷ []) (drop n s) >>? λ rest. some (take n s, rest))
    else none

-- One `blob` command: its mark and data, and what follows.
unfoldable pub read_blob : Bytes → Option ((ℕ × Bytes) × Bytes)
unfolding strip read_number read_data
read_blob s = strip (line (codes "blob")) s >>? λ s. read_number (codes "mark :") s >>? λ (mark, s).
    read_data s >>? λ (bytes, s). some ((mark, bytes), s)

-- As many `blob` commands as are asked for, and what follows.
unfoldable pub read_blobs : ℕ → Bytes → Option (List (ℕ × Bytes) × Bytes)
unfolding read_blob
read_blobs zero s = some ([], s)
read_blobs (suc n) s = read_blob s >>? λ (b, s). read_blobs n s >>? λ (bs, s). some (b ∷ bs, s)

abbrev NoNewline : Bytes → Type 0
NoNewline = All (λ c. (c == newline) ≡ false)

take_line-append : (l s : Bytes) → NoNewline l → take_line (l ++ newline ∷ s) ≡ (l, s)
unfolding take_line
take_line-append [] s h = refl
take_line-append (c ∷ l) s (hc, h) = rw (hc, take_line-append l s h, take_line) refl

strip-append : (p s : Bytes) → strip p (p ++ s) ≡ some s
unfolding strip
strip-append [] s = refl
strip-append (c ∷ p) s = ground (arith, strip-append p s)

digits-NoNewline : (ds : Bytes) → All IsDigit ds → NoNewline ds
digits-NoNewline [] h = tt
digits-NoNewline (d ∷ ds) (hd, h) = (ground arith, digits-NoNewline ds h)

NoNewline-append : (xs ys : Bytes) → NoNewline xs → NoNewline ys → NoNewline (xs ++ ys)
NoNewline-append [] ys hx hy = hy
NoNewline-append (x ∷ xs) ys (h, hx) hy = (h, NoNewline-append xs ys hx hy)

read_number-line :
    (word : Bytes) (n : ℕ) (s : Bytes)
    → NoNewline word
    → n ≤ max_u64
    → read_number word ((word ++ to_string n) ++ newline ∷ s) ≡ some (n, s)
unfolding read_number
read_number-line word n s h fits =
    rw
      (
        take_line-append (word ++ to_string n) s (
            NoNewline-append word (to_string n) h
              (digits-NoNewline (to_string n) (to_string-IsDigit n))),
        strip-append word (to_string n),
        parse_u64-to_string n fits,
      )
      refl

read_data-lines :
    (bytes s : Bytes)
    → length bytes ≤ max_u64
    → read_data ((codes "data " ++ to_string (length bytes)) ++ newline ∷ (bytes ++ newline ∷ s))
      ≡ some (bytes, s)
unfolding read_data
read_data-lines bytes s fits =
    let enough : leb (length bytes) (length (bytes ++ newline ∷ s)) ≡ true =
      ground (arith, length-append bytes (newline ∷ s)) in
    rw
      (
        read_number-line (codes "data ") (length bytes) (bytes ++ newline ∷ s)
            (refl, (refl, (refl, (refl, (refl, tt))))) fits,
        enough,
        drop-append bytes (newline ∷ s),
        take-append bytes (newline ∷ s),
      )
      refl

write-lines :
    (bytes : Bytes) (mark : ℕ) (s : Bytes)
    → write (record { data_bytes = bytes }) mark ++ s
      ≡ line (codes "blob")
        ++ ((codes "mark :" ++ to_string mark)
            ++ newline
              ∷ ((codes "data " ++ to_string (length bytes)) ++ newline ∷ (bytes ++ newline ∷ s)))
unfolding write
write-lines bytes mark s = simp append_assoc

read_blob-write :
    (bytes : Bytes) (mark : ℕ) (s : Bytes)
    → length bytes ≤ max_u64
    → mark ≤ max_u64
    → read_blob (write (record { data_bytes = bytes }) mark ++ s) ≡ some ((mark, bytes), s)
unfolding read_blob
read_blob-write bytes mark s small fits =
    let after : Bytes =
      (codes "data " ++ to_string (length bytes)) ++ newline ∷ (bytes ++ newline ∷ s) in
    rw
      (
        write-lines bytes mark s,
        read_number-line (codes "mark :") mark after
            (refl, (refl, (refl, (refl, (refl, (refl, tt)))))) fits,
        read_data-lines bytes s small,
      )
      refl

-- The marks from `n` on, each with its bytes.
abbrev pub numbered : ℕ → List Bytes → List (ℕ × Bytes)
numbered n [] = []
numbered n (b ∷ bs) = (n, b) ∷ numbered (suc n) bs

abbrev pub blob_command : Bytes → Command
blob_command bytes = write (record { data_bytes = bytes })

-- What commands write, one after the other, from the mark `n`.
abbrev stream : ℕ → List Bytes → Bytes
stream n [] = []
stream n (b ∷ bs) = blob_command b n ++ stream (suc n) bs

pub command-eq :
    (c : Command) (w : Writer)
    → w.next_mark < max_u64
    → command c w
      ≡ ok (
        w.next_mark,
        record { written = w.written ++ c w.next_mark; next_mark = suc w.next_mark },
      )
unfolding command increment
command-eq c w h = let t : ltb w.next_mark max_u64 ≡ true = ground arith in rw t refl

writer_ext :
    {a b : Bytes} {m n : ℕ}
    → a ≡ b
    → m ≡ n
    → Path Writer (record { written = a; next_mark = m }) (record { written = b; next_mark = n })
writer_ext p q i = record { written = p i; next_mark = q i }

run-blobs :
    (bs : List Bytes) (w : Writer)
    → w.next_mark + length bs ≤ max_u64
    → run (map blob_command bs) w
      ≡ ok (
        map (λ p. p.0) (numbered w.next_mark bs),
        record {
          written = w.written ++ stream w.next_mark bs;
          next_mark = w.next_mark + length bs;
        },
      )
unfolding run
run-blobs [] w h =
    let same : w.next_mark ≡ w.next_mark + 0 = omega arith in
    ap (λ o. ok ([], o)) (writer_ext (sym (append-nil w.written)) same)
run-blobs (b ∷ bs) w h =
    let w' : Writer = record {
      written = w.written ++ blob_command b w.next_mark;
      next_mark = suc w.next_mark;
    } in
    let bytes = append_assoc w.written (blob_command b w.next_mark) (stream (suc w.next_mark) bs) in
    let mark : suc w.next_mark + length bs ≡ w.next_mark + suc (length bs) = omega arith in
    rw (command-eq (blob_command b) w (omega arith), run-blobs bs w' (omega arith))
      (ap (λ o. ok (w.next_mark ∷ map (λ p. p.0) (numbered (suc w.next_mark) bs), o))
        (writer_ext bytes mark))

read_blobs-stream :
    (bs : List Bytes) (n : ℕ) (s : Bytes)
    → n + length bs ≤ max_u64
    → All (λ b. length b ≤ max_u64) bs
    → read_blobs (length bs) (stream n bs ++ s) ≡ some (numbered n bs, s)
unfolding read_blobs
read_blobs-stream [] n s h small = refl
read_blobs-stream (b ∷ bs) n s h (hb, small) =
    rw
      (
        append_assoc (blob_command b n) (stream (suc n) bs) s,
        read_blob-write b n (stream (suc n) bs ++ s) hb (omega arith),
        read_blobs-stream bs (suc n) s (omega arith) small,
      )
      refl

-- Blobs sent to a writer with enough marks left, and sizes that a `usize` holds, get consecutive marks
-- from the writer's next mark on, and a reader of the format, given what was written for them and
-- anything after it, reads back exactly these marks with the bytes of the blobs.
pub read_blobs-run :
    (bs : List Bytes) (w : Writer)
    → w.next_mark + length bs ≤ max_u64
    → All (λ b. length b ≤ max_u64) bs
    → (out : Bytes) × (w' : Writer) × (run (map blob_command bs) w
        ≡ ok (map (λ p. p.0) (numbered w.next_mark bs), w'))
      × (w'.written ≡ w.written ++ out)
      × ((s : Bytes) → read_blobs (length bs) (out ++ s) ≡ some (numbered w.next_mark bs, s))
read_blobs-run bs w h small = (
  stream w.next_mark bs,
  record { written = w.written ++ stream w.next_mark bs; next_mark = w.next_mark + length bs },
  run-blobs bs w h,
  refl,
  λ s. read_blobs-stream bs w.next_mark s h small,
)
