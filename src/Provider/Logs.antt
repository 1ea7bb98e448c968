-- ===== src/Provider/Logs.antt =====
-- logs.py: `RuntimeLogFormatter`, which turns the lines of a container's log into entries.
use Prim.Native.Char.{Char, code}
use layerrail_deploy.Prelude.{
  ℕ, zero, suc, ◌-◌, ◌≤◌, String, ◌==◌, ◌≡◌, Bool, false, ◌||◌, Option, none, some, List, [], ◌∷◌,
  ltb, leb, nat_eq, if◌then◌else◌, first_chars, starts_with, partition_on, chars, chars-first_chars,
  length, drop, last_n, All, arith, Bool-cases, inl, inr,
}
use layerrail_deploy.Provider.State.{LogEntry}

-- `s.rstrip("\r\n\x00")`
abbrev pub is_stripped : Char → Bool
is_stripped c = nat_eq (code c) 13 || nat_eq (code c) 10 || nat_eq (code c) 0

abbrev pub keep_unless_last : Char → String → String
keep_unless_last c String.[] = if is_stripped c then "" else String.◌∷◌ c String.[]
keep_unless_last c s = String.◌∷◌ c s

abbrev pub rstrip : String → String
rstrip String.[] = ""
rstrip (String.◌∷◌ c s) = keep_unless_last c (rstrip s)

drop-length : {A : Type 0} (n : ℕ) (l : List A) → length (drop n l) ≡ length l - n
drop-length zero l = omega arith
drop-length (suc n) [] = omega arith
drop-length (suc n) (x ∷ l) = rw (drop-length n l) (omega arith)

All-drop : {A : Type 0} (P : A → Type 0) (n : ℕ) (l : List A) → All P l → All P (drop n l)
All-drop P zero l h = h
All-drop P (suc n) [] h = tt
All-drop P (suc n) (x ∷ l) (h, rest) = All-drop P n l rest

-- an entry that may be stored and shown
abbrev pub IsEntry : LogEntry → Type 0
IsEntry e = (chars e.message ≤ 4096) × ((e.message == "") ≡ false)

abbrev Shows : Option LogEntry → Type 0
Shows none = Unit
Shows (some e) = IsEntry e

module _ (is_timestamp : String → Bool) (redact : String → String) where
  abbrev pub visible_message : String → String → Option LogEntry
  visible_message timestamp message =
      if message == ""
      then none
      else if starts_with message "sample-web 127.0.0.1 \"GET /health "
      then none
      else some (record { timestamp = timestamp; stream = "runtime"; message = message })

  -- `_entry` after the partition
  abbrev pub entry_of : Option (String × String) → Option LogEntry
  entry_of none = none
  entry_of (some (timestamp, message)) =
      if is_timestamp timestamp
      then visible_message timestamp (first_chars 4096 (redact (rstrip message)))
      else none

  unfoldable pub entry : String → Option LogEntry
  entry line = entry_of (partition_on b' ' line)

  abbrev pub with_entry : Option LogEntry → List LogEntry → List LogEntry
  with_entry none l = l
  with_entry (some e) l = e ∷ l

  with_entry-All :
      (e : Option LogEntry) (l : List LogEntry)
      → Shows e
      → All IsEntry l
      → All IsEntry (with_entry e l)
  with_entry-All none l h k = k
  with_entry-All (some e) l h k = (h, k)

  unfoldable pub visible : List String → List LogEntry
  visible [] = []
  visible (line ∷ lines) = with_entry (entry line) (visible lines)

  unfoldable pub format : List String → List LogEntry × Bool
  format lines =
      let source = last_n 1000 lines in
      let shown = visible source in
      (last_n 200 shown, ltb 200 (length shown) || leb 1000 (length source))

  message-Shows :
      (timestamp message : String)
      → chars message ≤ 4096
      → Shows (visible_message timestamp message)
  message-Shows timestamp message short = elim (Bool-cases (message == "")) [
    | inl e ↦ rw e tt
    | inr e ↦ elim (Bool-cases (starts_with message "sample-web 127.0.0.1 \"GET /health ")) [
      | inl health ↦ rw (e, health) tt
      | inr other ↦ rw (e, other) (short, e)
    ]
  ]

  entry-IsEntry : (line : Option (String × String)) → Shows (entry_of line)
  entry-IsEntry none = tt
  entry-IsEntry (some (timestamp, message)) = elim (Bool-cases (is_timestamp timestamp)) [
    | inl e ↦ rw e (message-Shows timestamp _ (chars-first_chars 4096 (redact (rstrip message))))
    | inr e ↦ rw e tt
  ]

  visible-IsEntry : (lines : List String) → All IsEntry (visible lines)
  unfolding visible entry
  visible-IsEntry [] = tt
  visible-IsEntry (line ∷ lines) =
      with_entry-All (entry line) (visible lines) (entry-IsEntry (partition_on b' ' line))
        (visible-IsEntry lines)

  -- What the formatter returns has at most 200 entries, and no message of more than 4096
  -- characters or of none.
  format_bounds :
      (lines : List String) → (length (format lines).0 ≤ 200) × All IsEntry (format lines).0
  unfolding format
  format_bounds lines =
      let shown = visible (last_n 1000 lines) in
      (
        rw (drop-length (length shown - 200) shown) (omega arith),
        All-drop IsEntry (length shown - 200) shown (visible-IsEntry (last_n 1000 lines)),
      )
