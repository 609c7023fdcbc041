-- ===== src/Jade/Stream.antt =====
-- The buffer neither loses, repeats nor reorders a byte.
use mathlib.Core.List.{append-nil, append_assoc}
use sideswapclient.Prelude.{
  ℕ, zero, suc, ◌+◌, ◌≤◌, ◌≡◌, refl, sym, ap, ◌∙◌, Bool-cases, inl, inr, Option, none, some, List,
  [], ◌∷◌, ◌++◌, length, length-append, leb, ◌>>=◌, arith,
}
use sideswapclient.Jade.{Bytes, Buf, take, drop, read_exact, reset_pos, remove_read, append_data}

pub data Call : Type 0 where
  append : Bytes → Call
  read : ℕ → Call
  reset remove : Call

-- The buffer after a read, whether it was an error or not.
abbrev pub after_read : Buf → Option (Bytes × Buf) → Buf
after_read buf none = buf
after_read buf (some (bytes, later)) = later

-- A call: the bytes that leave the buffer, and the buffer afterwards.
unfoldable pub call : Call → Buf → Option (Bytes × Buf)
unfolding read_exact remove_read
call (append bytes) buf = some ([], append_data bytes buf)
call (read count) buf = some ([], after_read buf (read_exact count buf))
call reset buf = some ([], reset_pos buf)
call remove buf = remove_read buf

unfoldable pub run : List Call → Buf → Option (Bytes × Buf)
unfolding call
run [] buf = some ([], buf)
run (c ∷ calls) buf =
    call c buf >>= λ first. run calls first.1 >>= λ later. some (first.0 ++ later.0, later.1)

abbrev pub appended : List Call → Bytes
appended [] = []
appended (append bytes ∷ calls) = bytes ++ appended calls
appended (read count ∷ calls) = appended calls
appended (reset ∷ calls) = appended calls
appended (remove ∷ calls) = appended calls

-- The position is in the data.
abbrev pub IsInside : Buf → Type 0
IsInside buf = buf.pos ≤ length buf.data_read

take-drop : (n : ℕ) (xs : Bytes) → take n xs ++ drop n xs ≡ xs
unfolding take drop
take-drop zero xs = refl
take-drop (suc n) [] = refl
take-drop (suc n) (x ∷ xs) = ap (λ ys. x ∷ ys) (take-drop n xs)

-- What leaves and what stays is what was there with what was added.
abbrev Keeps : Bytes → Buf → Option (Bytes × Buf) → Type 0
Keeps added buf outcome =
    (out : Bytes) × (later : Buf) × (outcome ≡ some (out, later))
    × IsInside later
    × (out ++ later.data_read ≡ buf.data_read ++ added)

after_read-kept :
    (count : ℕ) (buf : Buf)
    → IsInside buf
    → IsInside (after_read buf (read_exact count buf))
      × ((after_read buf (read_exact count buf)).data_read ≡ buf.data_read)
unfolding read_exact
after_read-kept count buf h = elim (Bool-cases (leb (buf.pos + count) (length buf.data_read))) [
  | inl e ↦ rw e (ground (arith, e), refl)
  | inr e ↦ rw e (h, refl)
]

call-Keeps : (c : Call) (buf : Buf) → IsInside buf → Keeps (appended (c ∷ [])) buf (call c buf)
unfolding call remove_read
call-Keeps (append bytes) buf h = (
  _,
  _,
  refl,
  omega (arith, length-append buf.data_read bytes),
  ap (λ z. buf.data_read ++ z) (sym (append-nil bytes)),
)
call-Keeps (read count) buf h =
    let (inside, same) = after_read-kept count buf h in
    (_, _, refl, inside, same ∙ sym (append-nil buf.data_read))
call-Keeps reset buf h = (_, _, refl, omega arith, sym (append-nil buf.data_read))
call-Keeps remove buf h = elim (Bool-cases (leb buf.pos (length buf.data_read))) [
  | inl e ↦ (
    take buf.pos buf.data_read,
    record { data_read = drop buf.pos buf.data_read; pos = 0 },
    rw e refl,
    omega arith,
    take-drop buf.pos buf.data_read ∙ sym (append-nil buf.data_read),
  )
  | inr e ↦ absurd (ground (arith, e))
]

appended-cons :
    (c : Call) (calls : List Call) → appended (c ∷ calls) ≡ appended (c ∷ []) ++ appended calls
appended-cons (append bytes) calls = ap (λ z. z ++ appended calls) (sym (append-nil bytes))
appended-cons (read count) calls = refl
appended-cons reset calls = refl
appended-cons remove calls = refl

-- From a buffer whose position is in its data, no sequence of calls panics: the bytes taken out, and
-- those that stay, are in their order the bytes of the start and those appended, and the position
-- is in the data again.
pub run-Keeps :
    (calls : List Call) (buf : Buf)
    → IsInside buf
    → (out : Bytes) × (later : Buf) × (run calls buf ≡ some (out, later))
      × IsInside later
      × (out ++ later.data_read ≡ buf.data_read ++ appended calls)
unfolding run
run-Keeps [] buf h = ([], buf, refl, h, sym (append-nil buf.data_read))
run-Keeps (c ∷ calls) buf h =
    let (out, next, e, inside, kept) = call-Keeps c buf h in
    let (outs, last, f, within, rest) = run-Keeps calls next inside in
    (
      out ++ outs,
      last,
      ap (λ o. o >>= λ first. run calls first.1 >>= λ later. some (first.0 ++ later.0, later.1)) e
          ∙ ap (λ o. o >>= λ later. some (out ++ later.0, later.1)) f,
      within,
      append_assoc out outs last.data_read
          ∙ ap (λ z. out ++ z) rest
          ∙ sym (append_assoc out next.data_read (appended calls))
          ∙ ap (λ z. z ++ appended calls) kept
          ∙ append_assoc buf.data_read (appended (c ∷ [])) (appended calls)
          ∙ ap (λ z. buf.data_read ++ z) (sym (appended-cons c calls)),
    )
