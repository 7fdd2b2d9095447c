-- ===== src/Namespaces/Tests.antt =====
-- A record on a disk, with a codec that writes tokens of two characters: `c` adds a character to a name,
-- `z` and `u` write a time, and `e` ends an entry.
use Prim.Native.Char.{Char, code}
use yaad_grove.Base.{
  String, Option, none, some, [], ◌∷◌, Map, insert, ℕ, zero, suc, ok, ◌≡◌, refl, ap, ◌==◌,
  if◌then◌else◌,
}
use yaad_grove.Namespaces.{
  NamespaceRecord, Entry, Codec, Disk, Fault, open_record, configured, save,
}
use yaad_grove.Namespaces.Durable.{IsCodec, Call, Reaches, run_call, Reaches-reopens}

abbrev write_time : Option ℕ → String → String
write_time none s = s
write_time (some zero) s = String.◌∷◌ "z" (String.◌∷◌ "." s)
write_time (some (suc n)) s = String.◌∷◌ "u" (String.◌∷◌ "." (write_time (some n) s))

abbrev write_name : String → String → String
write_name String.[] s = s
write_name (String.◌∷◌ c n) s = String.◌∷◌ "c" (String.◌∷◌ c (write_name n s))

abbrev write : Map Entry → String
write [] = ""
write ((ns, e) ∷ m) =
    String.◌∷◌ "e" (String.◌∷◌ "." (write_name ns (write_time e.dropped (write m))))

record Reading : Type 0 where
  name : String
  time : Option ℕ
  entries : Map Entry

abbrev one_more : Option ℕ → Option ℕ
one_more none = none
one_more (some n) = some (suc n)

abbrev token : Char → Char → Reading → Reading
token x c r =
    let k = code x in
    if k == 99
    then record r { name = String.◌∷◌ c r.name }
    else if k == 122
    then record r { time = some 0 }
    else if k == 117
    then record r { time = one_more r.time }
    else record {
      name = "";
      time = none;
      entries = (r.name, record { dropped = r.time }) ∷ r.entries;
    }

abbrev nothing_read : Map Entry → Reading
nothing_read m = record { name = ""; time = none; entries = m }

read : String → Reading
read String.[] = nothing_read []
read (String.◌∷◌ x String.[]) = nothing_read []
read (String.◌∷◌ x (String.◌∷◌ c s)) = token x c (read s)

read-write_time :
    (t : Option ℕ) (s : String) (m : Map Entry)
    → read s ≡ nothing_read m
    → read (write_time t s) ≡ record { name = ""; time = t; entries = m }
unfolding read
read-write_time none s m h = h
read-write_time (some zero) s m h = ap (token "z" ".") h
read-write_time (some (suc n)) s m h = ap (token "u" ".") (read-write_time (some n) s m h)

read-write_name :
    (n s : String) (t : Option ℕ) (m : Map Entry)
    → read s ≡ record { name = ""; time = t; entries = m }
    → read (write_name n s) ≡ record { name = n; time = t; entries = m }
unfolding read
read-write_name String.[] s t m h = h
read-write_name (String.◌∷◌ c n) s t m h = ap (token "c" c) (read-write_name n s t m h)

read-write : (m : Map Entry) → read (write m) ≡ nothing_read m
unfolding read
read-write [] = refl
read-write ((ns, e) ∷ m) = ap (token "e" ".") (
    read-write_name ns (write_time e.dropped (write m)) e.dropped m
      (read-write_time e.dropped (write m) m (read-write m)))

abbrev plain : Codec
plain = record { marshal = write; unmarshal = λ s. some (read s).entries }

plain-IsCodec : IsCodec plain
plain-IsCodec = record { reads = λ m. ap (λ r. some r.entries) (read-write m) }

abbrev empty_record : NamespaceRecord
empty_record = record { dropped = [] }

first_run : Reaches plain empty_record Disk.missing
unfolding open_record
first_run = Reaches.opens refl

abbrev start_up : Call
start_up = Call.configuring ("main" ∷ [])

abbrev left_record : NamespaceRecord
left_record = (run_call plain Fault.no_fault start_up empty_record Disk.missing).1

started :
    Reaches plain left_record (run_call plain Fault.no_fault start_up empty_record Disk.missing).2
unfolding run_call configured save
started = Reaches.calls Fault.no_fault start_up first_run refl

Reaches-reopens_example :
    open_record plain (run_call plain Fault.no_fault start_up empty_record Disk.missing).2
    ≡ ok left_record
Reaches-reopens_example = Reaches-reopens plain plain-IsCodec started

written_out :
    (configured plain Fault.no_fault ("main" ∷ []) empty_record Disk.missing).disk
    ≡ Disk.contents "e.cmcacicn"
unfolding configured save insert
written_out = refl
