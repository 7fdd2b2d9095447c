-- ===== src/Runtime/Tests.antt =====
-- Messages and clicks through the handler, over tables and lists.
use yaad_grove.Base.{
  ℕ, ◌+◌, ◌≡◌, refl, ◌⊎◌, true, false, String, none, some, List, [], ◌∷◌, Map, lookup, insert,
  arith, same_text, ok,
}
use yaad_grove.Base.Text.{trim_space, is_space, ◌<>◌}
use yaad_grove.Base.Int.{pos}
use yaad_grove.Core.{User, Action, Reply, Inbound, Surface, group, dm, empty_reply}
use yaad_grove.Acl.{
  Record, Consent, granted, declined, unknown, Store, Gate, tier_default, authorize, set_consent,
  resolve_tier, at_least, tier_admin, valid_tier,
}
use yaad_grove.Acl.Laws.{table_store, table_view, table_store-IsStore}
use yaad_grove.Memory.{Turn}
use yaad_grove.Pending.{resolved}
use yaad_grove.Runtime.Policy.{Policy, Catalog}
use yaad_grove.Runtime.Verbs.{
  set_tier_verb, Verb, Proposal, default_registry, execute_action, render_proposal, refusal_of,
  is_privileged, offer, label_of,
}
use yaad_grove.Runtime.Services.{Services, State, Times, LogEntry, TranscriptEntry}
use yaad_grove.Runtime.Handler.{handle}
use yaad_grove.Runtime.Privacy.{SameButNudges, unconsented_unrecorded}
use yaad_grove.Runtime.Direct.{dm_unlogged}
use yaad_grove.Runtime.Callbacks.{Denied, Ran, executed_authorized, click_harmless}
use yaad_grove.Runtime.Proposals.{IsPrivate, proposal_guarded}
use yaad_grove.Runtime.Forgetting.{Forgets, withdrawal-Forgets}

abbrev store : Store ℕ (Map Record)
store = table_store

abbrev gate : Gate
gate = record { def_tier = tier_default; cooldown = pos 600; nudges = [] }

abbrev catalog : Catalog
catalog = record { strings = []; base = ("refuse", "No.") ∷ ("consent_removed", "Removed.") ∷ [] }

abbrev settings : Policy
settings = record {
  admins = "root" ∷ [];
  nudge = record { mode = ""; text = ""; emoji = "" };
  inject = 3;
  followup_window = pos 100;
  strings = catalog;
  memory_derive = false;
  consent_ack = "";
}

abbrev env : Services ℕ ℕ (Map Record) (List LogEntry) (List TranscriptEntry) ℕ
env = record {
  store = store;
  answer = λ q w. (ok (record empty_reply { text = "answer" }), w + 1);
  callbacks =
      some
        (λ token w. (ok (record { verb = "dismiss"; params = []; label = "" }, resolved), w + 1));
  registry = some (default_registry store catalog);
  qlog = some (λ e q. (none, e ∷ q));
  transcript = some (λ e t. (none, e ∷ t));
  eraser = none;
  consent = true;
  policy = settings;
  unicode = record { to_lower = λ c. c; is_letter = λ c. true; is_digit = λ c. false };
  names = record { is_control = λ c. false; is_bidi_control = λ c. false; equal_fold = same_text };
}

abbrev member : String → String → Consent → Record
member id tier c = record {
  user_id = id;
  tier = tier;
  consent = c;
  rate_count = 0;
  rate_window_start = 0;
}

abbrev table : Map Record
table = ("ann", member "ann" "" granted) ∷ ("root", member "root" tier_admin unknown) ∷ []

abbrev turn : String → Turn
turn id = record {
  speaker_id = id;
  speaker = id;
  bot = false;
  text = "hello";
  time = 1;
  message_id = "";
  reply_to = "";
}

abbrev start : State (Map Record) (List LogEntry) (List TranscriptEntry) ℕ
start = record {
  gate = gate;
  acl = table;
  qlog = [];
  transcript = [];
  buffer = some (record { retain = 5; convos = ("room", turn "ann" ∷ turn "bob" ∷ []) ∷ [] });
  world = 0;
}

abbrev says : String → Surface → String → Inbound
says id surface text = record {
  user = record { id = id; display = id };
  surface = surface;
  text = text;
  reply_to = "room";
  directed = true;
  message_id = "m";
  reply_to_message_id = "";
  reply_to_bot = false;
  reply_to_text = "";
  reply_to_sender = "";
  callback = none;
}

abbrev clock : Times
clock = record {
  gated = 10;
  logged = 11;
  transcribed = 12;
  selected = 13;
  remembered = 14;
  answered = 15;
  answer_transcribed = 16;
}

abbrev root : User
root = record { id = "root"; display = "" }

abbrev ann : User
ann = record { id = "ann"; display = "" }

abbrev promote : Action
promote = record {
  verb = "set_tier";
  params = ("user", "bob") ∷ ("tier", "trusted") ∷ [];
  label = "Harmless";
}

unconsented_unrecorded_example :
    SameButNudges start (handle env (says "bob" group "hi") clock start).1
unconsented_unrecorded_example =
    unconsented_unrecorded env table_view table_store-IsStore (says "bob" group "hi") clock start
      refl refl (unfold lookup in λ e. cc e)

dm_unlogged_example :
    ((handle env (says "root" dm "hi") clock start).1.qlog ≡ [])
    × ((handle env (says "root" dm "hi") clock start).1.transcript ≡ [])
dm_unlogged_example = dm_unlogged env (says "root" dm "hi") clock start refl

executed_authorized_example :
    Denied store gate catalog table
      (execute_action store gate catalog (some (default_registry store catalog)) root promote table)
    ⊎ ((verb : Verb ℕ (Map Record)) × (lookup "set_tier" (default_registry store catalog)
          ≡ some verb)
        × Ran store gate catalog verb root promote.params table (
            execute_action store gate catalog
              (some (default_registry store catalog))
              root
              promote
              table))
executed_authorized_example =
    executed_authorized store gate catalog (default_registry store catalog) root promote table

click_harmless_example :
    let s' =
      (execute_action store gate catalog
        (some (default_registry store catalog))
        ann
        promote
        table).1 in
    ((table_view s' "bob").tier ≡ (table_view table "bob").tier)
    × ((table_view s' "bob" ≡ table_view table "bob") ⊎ (◌≡◌ {A = String} "bob" "ann"))
click_harmless_example =
    click_harmless store gate catalog table_view table_store-IsStore ann promote table "bob"
      (unfold at_least resolve_tier lookup in refl)

abbrev proposal : Proposal
proposal = record { prompt = "Promote?"; action = promote }

abbrev promotion : Reply
promotion = offer store gate proposal "Set bob → trusted"

proposal_guarded_example :
    (verb : Verb ℕ (Map Record)) × (lookup "set_tier" (default_registry store catalog) ≡ some verb)
    × (refusal_of verb.validate promote.params ≡ none)
    × ((is_privileged verb.min_tier ≡ true)
          × IsPrivate store gate verb proposal root dm table promotion
        ⊎ (is_privileged verb.min_tier ≡ false)
          × (promotion
              ≡ offer store gate proposal (label_of store gate verb.describe promote.params)))
proposal_guarded_example =
    proposal_guarded store gate (default_registry store catalog) proposal root dm table promotion (
      unfold render_proposal default_registry set_tier_verb trim_space valid_tier is_privileged
        table_store authorize lookup insert ◌<>◌ in
      refl)

abbrev remove : Inbound
remove = says "ann" dm " /consent remove "

remove_text : trim_space " /consent remove " ≡ "/consent remove"
unfolding trim_space is_space
remove_text = refl

removed_written : (set_consent store "ann" declined table).0 ≡ none
unfolding set_consent table_store lookup
removed_written = refl

withdrawal-Forgets_example :
    ((table_view (handle env remove clock start).1.acl "ann").consent ≡ declined)
    × Forgets "ann" (handle env remove clock start).1.buffer
withdrawal-Forgets_example =
    withdrawal-Forgets env table_view table_store-IsStore remove clock start refl refl refl
      remove_text removed_written (omega arith) (λ e. cc e)
