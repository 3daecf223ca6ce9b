-- ===== src/Agent/State.antt =====
-- `state_t` of agent.cpp and state.hpp. The states of the program stand in a store, by their addresses.
pub mod Valid
pub mod Build
pub mod Enter
pub mod Path
pub mod Remember
pub mod Return
use sobjectizer.Base.{
  ℕ, zero, suc, ◌+◌, ◌-◌, Bool, true, false, Option, none, some, List, [], ◌∷◌, ltb, leb, ◌==◌,
  if◌then◌else◌,
}

pub data History : Type 0 where
  no_history shallow deep : History

-- `target_agent` is `none` in the two special states; a name and the handlers are left out, and
-- `time_limit` says whether there is a time limit.
pub record State : Type 0 where
  pub target_agent : Option ℕ
  pub parent_state : Option ℕ
  pub initial_substate : Option ℕ
  pub state_history : History
  pub last_active_substate : Option ℕ
  pub nested_level : ℕ
  pub substate_count : ℕ
  pub time_limit : Bool

abbrev pub max_deep : ℕ
max_deep = 16

-- The two states that all agents share.
abbrev pub awaiting_deregistration_state : ℕ
awaiting_deregistration_state = 1

abbrev pub deadletter_state : ℕ
deadletter_state = 2

abbrev pub fresh_state : Option ℕ → Option ℕ → ℕ → History → State
fresh_state agent parent level history = record {
  target_agent = agent;
  parent_state = parent;
  initial_substate = none;
  state_history = history;
  last_active_substate = none;
  nested_level = level;
  substate_count = 0;
  time_limit = false;
}

-- The states by address, and the next address that is free.
pub record Store : Type 0 where
  pub at : ℕ → State
  pub next : ℕ

abbrev pub update : (ℕ → State) → ℕ → State → ℕ → State
update f s x i = if i == s then x else f i

-- The store with the two special states only.
unfoldable pub no_states : Store
no_states = record { at = λ i. fresh_state none none 0 no_history; next = 3 }

pub data Error : Type 0 where
  state_nesting_is_too_deep initial_substate_already_defined no_initial_substate : Error
  another_state_switch_in_progress agent_deactivated agent_unknown_state : Error
  operation_enabled_only_on_agent_working_thread message_has_no_limit_defined : Error
  invalid_time_limit_for_state : Error

-- A new top-level state, and its address.
unfoldable pub make_state : ℕ → History → Store → Store × ℕ
make_state agent history st = (
  record {
    at = update st.at st.next (fresh_state (some agent) none 0 history);
    next = st.next + 1;
  },
  st.next,
)

-- The delegate of the constructors of substates: the check of the level comes before the parent is
-- marked.
unfoldable pub add_substate : ℕ → History → Store → Store × Option Error
add_substate parent history st =
    let p = st.at parent in
    let level = p.nested_level + 1 in
    if leb max_deep level then (st, some state_nesting_is_too_deep) else (
      record {
        at =
            update (update st.at parent (record p { substate_count = p.substate_count + 1 }))
              st.next (fresh_state p.target_agent (some parent) level history);
        next = st.next + 1;
      },
      none,
    )

-- `substate_of`: the new state is at the address `st.next`.
abbrev pub make_substate : ℕ → History → Store → Store × Option Error
make_substate = add_substate

-- `initial_substate_of`: the check comes after the delegate, whose mark on the parent stays.
unfoldable pub mark_initial : ℕ → ℕ → Store → Store × Option Error
mark_initial parent child st = elim (st.at parent).initial_substate [
  | some c ↦ (st, some initial_substate_already_defined)
  | none ↦ (
    record st {
      at = update st.at parent (record (st.at parent) { initial_substate = some child });
    },
    none,
  )
]

unfoldable pub make_initial_substate : ℕ → History → Store → Store × Option Error
unfolding add_substate mark_initial
make_initial_substate parent history st =
    let (st', failed) = add_substate parent history st in
    elim failed [ some e ↦ (st', some e) | none ↦ mark_initial parent st.next st' ]

abbrev pub is_target : ℕ → ℕ → Store → Bool
is_target agent s st = elim (st.at s).target_agent [
  | some a ↦ a == agent
  | none ↦ s == awaiting_deregistration_state
]

-- `actual_state_to_enter`: the loop, with fuel for its rounds.
pub data Entered : Type 0 where
  entered : ℕ → Entered
  failed : Error → Entered
  out_of_fuel : Entered

unfoldable pub enter_from : ℕ → (ℕ → State) → ℕ → Entered
enter_from zero f s = out_of_fuel
enter_from (suc fuel) f s = elim (f s).substate_count [
  | zero ↦ entered s
  | suc n ↦ elim (f s).last_active_substate [
    | some c ↦ enter_from fuel f c
    | none ↦ elim (f s).initial_substate [
      | some c ↦ enter_from fuel f c
      | none ↦ failed no_initial_substate
    ]
  ]
]

abbrev pub actual_state_to_enter : ℕ → Store → Entered
actual_state_to_enter s st = enter_from max_deep st.at s

-- `update_history_in_parent_states`: the loop over the parents `p`, with the substate `c` below, and
-- fuel for its rounds.
abbrev pub remember : ℕ → ℕ → State → State
remember s c p = elim p.state_history [
  | no_history ↦ p
  | shallow ↦ record p { last_active_substate = some c }
  | deep ↦ record p { last_active_substate = some s }
]

unfoldable pub update_from : ℕ → ℕ → ℕ → Option ℕ → (ℕ → State) → ℕ → State
update_from fuel s c none f = f
update_from zero s c (some p) f = f
update_from (suc fuel) s c (some p) f =
    update_from fuel s p (f p).parent_state (update f p (remember s c (f p)))

unfoldable pub update_history_in_parent_states : ℕ → Store → Store
unfolding update_from
update_history_in_parent_states s st = record st {
  at = update_from max_deep s s (st.at s).parent_state st.at;
}

unfoldable pub clear_history : ℕ → Store → Store
clear_history s st = record st {
  at = update st.at s (record (st.at s) { last_active_substate = none });
}

-- `fill_path`: the array by index, and the recursion to the parents with fuel.
abbrev pub write : (ℕ → ℕ) → ℕ → ℕ → ℕ → ℕ
write path i s j = if j == i then s else path j

unfoldable pub fill_from : ℕ → (ℕ → State) → ℕ → (ℕ → ℕ) → ℕ → ℕ
fill_from zero f s path = path
fill_from (suc fuel) f s path =
    let path' = write path (f s).nested_level s in
    elim (f s).parent_state [ none ↦ path' | some p ↦ fill_from fuel f p path' ]

abbrev pub fill_path : ℕ → (ℕ → State) → ℕ → ℕ
fill_path s f = fill_from max_deep f s (λ i. 0)
