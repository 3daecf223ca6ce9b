-- ===== src/MboxCore.antt =====
-- `mbox_core_t` of dev/so_5/impl/mbox_core.cpp: the dictionary of named mboxes. Full names (the
-- namespace with the name) and mboxes are numbers; a section under the lock is one step, and the
-- destructor of `named_local_mbox_t` is a call of destroy_mbox. The counter of references is an
-- `unsigned int` and wraps as one; that of ids has 64 bits and is taken not to run through them.
pub mod Entries
pub mod Names
pub mod Tests
use sobjectizer.Base.{
  add_unsigned, sub_unsigned, length, ◌≤◌, take_at, ℕ, zero, suc, ◌+◌, ◌-◌, Bool, true, false,
  Option, none, some, List, [], ◌∷◌, ◌==◌, if◌then◌else◌,
}

pub record NamedMboxInfo : Type 0 where
  pub external_ref_count : ℕ
  pub mbox : ℕ

pub record Core : Type 0 where
  pub named_mboxes_dictionary : ℕ → Option NamedMboxInfo
  pub mbox_id_counter : ℕ

abbrev pub assign : (ℕ → Option NamedMboxInfo) → ℕ → Option NamedMboxInfo → ℕ → Option NamedMboxInfo
assign f name x n = if n == name then x else f n

-- One more reference to a mbox that is there.
abbrev pub refer : ℕ → NamedMboxInfo → Core → Core
refer name info c = record c {
  named_mboxes_dictionary =
      assign c.named_mboxes_dictionary name
        (some (record info { external_ref_count = add_unsigned info.external_ref_count 1 }));
}

abbrev pub emplace : ℕ → ℕ → Core → Core
emplace name mbox c = record c {
  named_mboxes_dictionary =
      assign c.named_mboxes_dictionary name (some (record { external_ref_count = 1; mbox = mbox }));
}

-- A mbox without a name: its id.
unfoldable pub create_anonymous : Core → Core × ℕ
create_anonymous c = (record c { mbox_id_counter = c.mbox_id_counter + 1 }, c.mbox_id_counter + 1)

-- `create_mbox` with a name: the mbox behind the `named_local_mbox_t` that it gives.
unfoldable pub create_mbox : ℕ → Core → Core × ℕ
unfolding create_anonymous
create_mbox name c = elim (c.named_mboxes_dictionary name) [
  | some info ↦ (refer name info c, info.mbox)
  | none ↦ let (c', mbox) = create_anonymous c in (emplace name mbox c', mbox)
]

-- `introduce_named_mbox` up to the call of the factory, and from its return on.
unfoldable pub introduce_first : ℕ → Core → Core × Option ℕ
introduce_first name c = elim (c.named_mboxes_dictionary name) [
  | some info ↦ (refer name info c, some info.mbox)
  | none ↦ (c, none)
]

unfoldable pub introduce_last : ℕ → ℕ → Core → Core × ℕ
introduce_last name fresh_mbox c = elim (c.named_mboxes_dictionary name) [
  | some info ↦ (refer name info c, info.mbox)
  | none ↦ (emplace name fresh_mbox c, fresh_mbox)
]

unfoldable pub destroy_mbox : ℕ → Core → Core
destroy_mbox name c = elim (c.named_mboxes_dictionary name) [
  | none ↦ c
  | some info ↦
      let ref_count = sub_unsigned info.external_ref_count 1 in
      record c {
        named_mboxes_dictionary = assign c.named_mboxes_dictionary name (
            if ref_count == 0 then none else some (record info { external_ref_count = ref_count }));
      }
]

-- The core, the named mboxes that are alive (each with its name and the mbox behind it), and the names
-- for which a thread is in its factory.
pub record System : Type 0 where
  pub core : Core
  pub alive : List (ℕ × ℕ)
  pub introducing : List ℕ

unfoldable pub idle : System
idle = record {
  core = record { named_mboxes_dictionary = λ name. none; mbox_id_counter = 1 };
  alive = [];
  introducing = [];
}

pub data Step : Type 0 where
  creates introduces : ℕ → Step
  factory_returns : ℕ → Option ℕ → Step
  destroys : ℕ → Step
  creates_anonymous : Step

-- One step of some thread. A factory that gives no mbox ends its call by an exception; a step that no
-- thread is at does nothing.
unfoldable pub step : Step → System → System
unfolding create_mbox introduce_first introduce_last destroy_mbox create_anonymous take_at
step (creates name) s =
    let (c, mbox) = create_mbox name s.core in record s { core = c; alive = (name, mbox) ∷ s.alive }
step (introduces name) s =
    let (c, found) = introduce_first name s.core in
    elim found [
      | some mbox ↦ record s { core = c; alive = (name, mbox) ∷ s.alive }
      | none ↦ record s { core = c; introducing = name ∷ s.introducing }
    ]
step (factory_returns i given) s = elim (take_at i s.introducing) [
  | none ↦ s
  | some p ↦ elim given [
    | none ↦ record s { introducing = p.1 }
    | some fresh_mbox ↦
        let (c, mbox) = introduce_last p.0 fresh_mbox s.core in
        record { core = c; alive = (p.0, mbox) ∷ s.alive; introducing = p.1 }
  ]
]
step (destroys i) s = elim (take_at i s.alive) [
  | none ↦ s
  | some p ↦ record s { core = destroy_mbox p.0.0 s.core; alive = p.1 }
]
step creates_anonymous s = record s { core = (create_anonymous s.core).0 }

unfoldable pub run : List Step → System → System
unfolding step
run [] s = s
run (x ∷ xs) s = run xs (step x s)
