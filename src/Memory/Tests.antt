-- ===== src/Memory/Tests.antt =====
-- Turns in the buffer of memory.go, and what select.go takes of them.
use Prim.Native.Char.{code}
use yaad_grove.Base.{
  ℕ, ◌≡◌, refl, true, false, String, some, List, [], ◌∷◌, ◌++◌, arith, lookup, leb, ◌&&◌,
}
use yaad_grove.Base.Int.{pos}
use yaad_grove.Memory.{Turn, Buffer, enabled, convo, purge_user}
use yaad_grove.Memory.Retention.{append_all, last_of, turns_of, append_all-eq}
use yaad_grove.Memory.Withdrawal.{of_others, NotBy, purge_user-convo}
use yaad_grove.Memory.Select.{Unicode, recency_floor, mid_conversation, select}
use yaad_grove.Memory.Window.{select_latest}
use yaad_grove.Base.{length, drop, min, ◌-◌, ◌||◌, if◌then◌else◌}

abbrev said : String → String → ℕ → Turn
said id text at = record {
  speaker_id = id;
  speaker = id;
  bot = false;
  text = text;
  time = at;
  message_id = "";
  reply_to = "";
}

abbrev buffer : Buffer
buffer = record {
  retain = 2;
  convos = ("room", said "ann" "hello" 1 ∷ said "bob" "garden walk" 2 ∷ []) ∷ [];
}

-- ASCII only.
abbrev ascii : Unicode
ascii = record {
  to_lower = λ c. c;
  is_letter = λ c. leb 97 (code c) && leb (code c) 122;
  is_digit = λ c. leb 48 (code c) && leb (code c) 57;
}

abbrev later : List (String × Turn)
later = ("room", said "cyd" "seeds" 3) ∷ ("hall", said "dan" "hi" 4) ∷ []

append_all-eq_example :
    convo "room" (append_all later buffer)
    ≡ last_of 2 (convo "room" buffer ++ turns_of "room" later)
append_all-eq_example =
    append_all-eq "room" later buffer (omega arith) (unfold convo lookup in omega arith)

purge_user-convo_example :
    (convo "room" (purge_user "ann" buffer) ≡ of_others "ann" (convo "room" buffer))
    × NotBy "ann" (convo "room" (purge_user "ann" buffer))
purge_user-convo_example = purge_user-convo "ann" "room" buffer (omega arith) (λ e. cc e)

select_latest_example :
    (before : List Turn) × (select ascii "room" "the garden" "bob" true 1 (pos 0) 5 (some buffer)
      ≡ (if true || mid_conversation "bob" 5 (pos 0) (convo "room" buffer)
          then before
            ++ drop (length (convo "room" buffer) - min recency_floor 1) (convo "room" buffer)
          else []))
select_latest_example =
    select_latest ascii "room" "the garden" "bob" true 1 (pos 0) 5 buffer (unfold enabled in refl)
      (omega arith)
