-- ===== src/Examples/Payload.antt =====
-- A way to write a payload as a text that can be read back.
use Prim.Native.Char.{Char, code}
use qualityci.Json.{Json, text, object, Members, end, member}
use qualityci.Store.Rows.{key_members, key_json}
use qualityci.Prelude.{
  ℕ, zero, suc, String, ◌≡◌, refl, ap, ◌∙◌, Option, none, some, List, [], ◌∷◌, eqb, if◌then◌else◌,
  nat_eq, string_eq, pair_eq, length,
}

-- Each character behind a mark, and a stop behind them all.
write_text : String → String → String
write_text String.[] rest = String.◌∷◌ "." rest
write_text (String.◌∷◌ c s) rest = String.◌∷◌ "x" (String.◌∷◌ c (write_text s rest))

after_char : Char → Option (String × String) → Option (String × String)
after_char c none = none
after_char c (some (s, rest)) = some (String.◌∷◌ c s, rest)

read_text : String → Option (String × String)
unfolding after_char
read_text String.[] = none
read_text (String.◌∷◌ m String.[]) = if eqb (code m) b'.' then some ("", "") else none
read_text (String.◌∷◌ m (String.◌∷◌ c s)) =
    let later = read_text s in
    if eqb (code m) b'.' then some ("", String.◌∷◌ c s) else after_char c later

read_text-write_text : (s rest : String) → read_text (write_text s rest) ≡ some (s, rest)
unfolding read_text write_text after_char
read_text-write_text String.[] String.[] = refl
read_text-write_text String.[] (String.◌∷◌ c s) = refl
read_text-write_text (String.◌∷◌ c s) rest = ap (after_char c) (read_text-write_text s rest)

-- A number of marks, and a stop.
write_count : ℕ → String → String
write_count zero rest = String.◌∷◌ "." rest
write_count (suc n) rest = String.◌∷◌ "x" (write_count n rest)

read_count : String → ℕ × String
read_count String.[] = (0, "")
read_count (String.◌∷◌ m s) =
    let later = read_count s in if eqb (code m) b'.' then (0, s) else (suc later.0, later.1)

read_count-write_count : (n : ℕ) (rest : String) → read_count (write_count n rest) ≡ (n, rest)
unfolding read_count write_count
read_count-write_count zero rest = refl
read_count-write_count (suc n) rest =
    ap (λ (p : ℕ × String). (suc p.0, p.1)) (read_count-write_count n rest)

write_key : List (String × String) → String → String
unfolding write_text
write_key [] rest = rest
write_key ((column, value) ∷ key) rest = write_text column (write_text value (write_key key rest))

with_member : String → String → Option (Members × String) → Option (Members × String)
with_member column value none = none
with_member column value (some (members, rest)) = some (member column (text value) members, rest)

then_read :
    Option (String × String)
    → (String → String → Option (Members × String))
    → Option (Members × String)
then_read none f = none
then_read (some (s, rest)) f = f s rest

read_key : ℕ → String → Option (Members × String)
unfolding read_text with_member then_read
read_key zero s = some (end, s)
read_key (suc n) s = then_read (read_text s) (λ column rest.
    then_read (read_text rest) (λ value more. with_member column value (read_key n more)))

read_key-write_key :
    (key : List (String × String)) (rest : String)
    → read_key (length key) (write_key key rest) ≡ some (key_members key, rest)
unfolding read_key write_key then_read with_member
read_key-write_key [] rest = refl
read_key-write_key ((column, value) ∷ key) rest =
    ap
      (λ o. then_read o (λ column rest.
        then_read (read_text rest)
          (λ value more. with_member column value (read_key (length key) more))))
      (read_text-write_text column (write_text value (write_key key rest)))
    ∙ ap (λ o. then_read o (λ value more. with_member column value (read_key (length key) more)))
        (read_text-write_text value (write_key key rest))
    ∙ ap (with_member column value) (read_key-write_key key rest)

print_of : Option (String × String) → Members → Option (Json × String)
print_of none members = none
print_of (some (print, rest)) members = some (object members, print)

payload_of : Option (Members × String) → Option (Json × String)
unfolding print_of
payload_of none = none
payload_of (some (members, rest)) = print_of (read_text rest) members

pub write_payload : List (String × String) → String → String
unfolding write_count
write_payload key print = write_count (length key) (write_key key (write_text print ""))

pub read_payload : String → Option (Json × String)
unfolding read_count payload_of
read_payload s = payload_of (read_key (read_count s).0 (read_count s).1)

pub read_payload-write_payload :
    (key : List (String × String)) (print : String)
    → read_payload (write_payload key print) ≡ some (key_json key, print)
unfolding read_payload write_payload payload_of print_of
read_payload-write_payload key print =
    ap (λ (p : ℕ × String). payload_of (read_key p.0 p.1))
      (read_count-write_count (length key) (write_key key (write_text print "")))
    ∙ ap payload_of (read_key-write_key key (write_text print ""))
    ∙ ap (λ o. print_of o (key_members key)) (read_text-write_text print "")
