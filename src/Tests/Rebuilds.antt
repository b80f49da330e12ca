-- ===== src/Tests/Rebuilds.antt =====
-- The log, the table of attributes and the order of the events, at concrete inputs.
use mathlib.Core.List.{Permᴰ}
use mathlib.Core.Bool.{false≢true}
use satan_attrd.Prelude.{
  ℕ, Bool, true, false, some, List, [], ◌∷◌, All, ◌≡◌, refl, str_eq, arith, leb, ◌≢◌, ap, eq_iff,
  sym, ◌∙◌, String, ◌&&◌, none, if◌then◌else◌,
}
use satan_attrd.Prelude.Int.{ℤ, pos, eqb_ℤ, ◌+ℤ◌}
use satan_attrd.F64.{nought, one}
use satan_attrd.Store.Database.{EventRow, Database}
use satan_attrd.Store.Database.Calm.{calm}
use satan_attrd.Store.Operations.{select, order_by, insert_ordered, row_of, is_key}
use satan_attrd.Store.Operations.Log.{IsLog}
use satan_attrd.Store.Rebuild.{rebuild_projection, replayed}
use satan_attrd.Store.Rebuild.Laws as Laws
use satan_attrd.Store.Rebuild.Laws.{last_event}
use satan_attrd.Store.Rebuild.Content.{content, content_at, same_key}
use satan_attrd.Store.Event.{EventInsert, validate}
use satan_attrd.Store.Id.{format_event_id}
use satan_attrd.Types.Attribute
use satan_attrd.Types.Scopes
use satan_attrd.RunLoop.Write.{store_events}
use satan_attrd.RunLoop.Write.Stored.{IsStorable}
use satan_attrd.RunLoop.Write.Derived.{Agrees, IsDerived, AreLatest, store_events-IsDerived}
use satan_attrd.Store.Rebuild.Order.{HasOrders, rebuild-perm}
use satan_attrd.Steps.Keeps.{ReturnsIn}
use satan_attrd.Store.Settings.{setting, bool_setting}
use satan_attrd.Decay.{targets}
use satan_attrd.Decay.Tick
use satan_attrd.Decay.Tick.{tick}
use satan_attrd.Decay.Covers.{IsSettled}
use satan_attrd.Decay.Settled.{IsOn, tick-IsSettled}
use satan_attrd.Tests.Texts.{text_le, text_total, text_trans, text_antisym}
use satan_attrd.Tests.Fixtures.{json, j_null, j_bool}
use satan_attrd.Tests.Tables.{tables, logged, doubt_row}

ts_trans : (a b c : ℕ) → leb a b ≡ true → leb b c ≡ true → leb a c ≡ true
ts_trans a b c h k = ground arith

ts_total : (a b : ℕ) → leb a b ≡ false → leb b a ≡ true
ts_total a b h = ground arith

json-HasOrders : HasOrders json
json-HasOrders = record {
  ts_total = ts_total;
  ts_trans = ts_trans;
  text_total = text_total;
  text_trans = text_trans;
  text_antisym = text_antisym;
}

abbrev second : EventRow json
second = record (logged (pos 2) one true) { id = "e2" }

abbrev first : EventRow json
first = logged (pos 1) nought false

-- Two events, kept in the reverse of the order in which they are replayed.
abbrev kept : Database json
kept = record tables { events = second ∷ first ∷ [] }

differ : (s t : String) → str_eq s t ≡ false → s ≢ t
differ s t h e = false≢true (sym h ∙ (eq_iff s t).1 e)

other_id : second.id ≢ first.id
other_id = differ "e2" "e" refl

other_seq : second.seq ≢ first.seq
other_seq e = false≢true (sym (ap (eqb_ℤ (pos 2)) e))

kept-IsLog : IsLog kept.events
kept-IsLog = (((other_id, λ e. other_seq), tt), (tt, tt))

kept-IsStorable : All Laws.IsStorable (replayed true kept)
unfolding replayed select order_by insert_ordered one text_le
kept-IsStorable = (refl, (refl, tt))

rebuild-perm_example :
    let a = rebuild_projection true (calm kept) in
    let b = rebuild_projection true (calm (record kept { events = first ∷ second ∷ [] })) in
    (a.0 ≡ b.0) × (a.1.db.attributes ≡ b.1.db.attributes)
rebuild-perm_example =
    rebuild-perm json-HasOrders true kept (first ∷ second ∷ []) kept-IsLog (Permᴰ.swap refl refl)
      kept-IsStorable

abbrev event : ℤ → Bool → EventInsert json
event seq disabled = record {
  run_id = "run-1";
  seq = seq;
  ts = 1;
  scope = Scopes.global;
  name = Attribute.doubt;
  old_value = nought;
  new_value = one;
  source = "manual";
  reason = "raised";
  evidence_json = j_null;
  caps_applied = [];
  disabled = disabled;
}

-- A table with one event and its value, and two events to store, the second of them disabled.
abbrev settled : Database json
settled = record tables {
  attributes = record doubt_row { value = nought } ∷ [];
  events = first ∷ [];
}

abbrev events : List (EventInsert json)
events = event (pos 1) false ∷ event (pos 2) true ∷ []

settled-IsDerived : IsDerived settled
unfolding replayed select order_by insert_ordered last_event content_at is_key same_key
settled-IsDerived s n = shown (str_eq "global" s && str_eq "doubt" n)
  where
    shown :
        (b : Bool)
        → Agrees
            (if b then some first else none)
            (if b then some (content (record doubt_row { value = nought })) else none)
    shown true = (refl, refl, refl)
    shown false = tt

seqs_differ : pos 1 ≢ pos 2
seqs_differ e = false≢true (sym (ap (eqb_ℤ (pos 1)) e))

events-IsStorable : IsStorable events settled
unfolding validate row_of format_event_id one ◌+ℤ◌
events-IsStorable = record {
  valid = (refl, (refl, tt));
  new = (
    (
      (differ _ _ refl, λ e. absurd (differ "maintenance:2026-01-02" "run-1" refl e)),
      ((differ _ _ refl, λ e. absurd (differ "maintenance:2026-01-02" "run-1" refl e)), tt),
    ),
    (((differ _ _ refl, λ e. seqs_differ), tt), (tt, tt)),
  );
  ids = (refl, (refl, tt));
}

events-AreLatest : AreLatest events settled.events
unfolding row_of text_le
events-AreLatest = ((refl, tt), ((refl, (refl, tt)), tt))

store_events-IsDerived_example : IsDerived (store_events events (calm settled)).1.db
store_events-IsDerived_example =
    store_events-IsDerived events settled events-IsStorable events-AreLatest settled-IsDerived

-- The tables with updates enabled: the decay of the row is due at day 1.
abbrev waking : Database json
waking = record tables { settings = ("attribute_updates_enabled", j_bool true) ∷ [] }

waking-IsOn : IsOn waking
unfolding bool_setting setting
waking-IsOn = refl

tick-IsSettled_example :
    ReturnsIn
      (λ _ t. All (λ r. IsSettled json 1 1 r.last_decay_at) (targets "global" t.world.db))
      (tick "global" 1 1 (Tick.new (calm waking)))
tick-IsSettled_example = tick-IsSettled 1 1 (Tick.new (calm waking)) waking-IsOn
