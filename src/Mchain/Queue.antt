-- ===== src/Mchain/Queue.antt =====
-- The three demand queues of mchain_details.hpp, and the interface that `mchain_template` takes as
-- its parameter `Queue`.
use sobjectizer.Base.{
  ℕ, ◌≤◌, ◌<◌, ◌≡◌, Bool, true, false, Option, none, some, List, [], ◌∷◌, ◌++◌, length, is_nil,
  ◌==◌, if◌then◌else◌,
}

-- `demand_t`: the type index of the message and the reference to it (`none` is a null reference).
pub record Demand : Type 0 where
  pub msg_type : ℕ
  pub message_ref : Option ℕ

-- `demand_t{}`: the type index of `void` is 0.
abbrev pub empty_demand : Demand
empty_demand = record { msg_type = 0; message_ref = none }

-- The exceptions, and `abort_on_fatal_error`.
pub data Error : Type 0 where
  msg_chain_is_empty msg_chain_is_full msg_chain_overflow app_aborted : Error

pub data Result {ℓ} (A : Type ℓ) : Type ℓ where
  ok : A → Result A
  throw : Error → Result A

infixl 5 ◌>>=◌ ◌>>◌
abbrev pub ◌>>=◌ {ℓ κ} : {A : Type ℓ} {B : Type κ} → Result A → (A → Result B) → Result B
ok a >>= f = f a
throw e >>= f = throw e

abbrev pub ◌>>◌ {ℓ} : {B : Type ℓ} → Result (Unit {0}) → Result B → Result B
m >> k = m >>= λ _. k

-- The operations that a chain calls on its queue.
pub record QueueOps : Type 1 where
  pub Queue : Type 0
  pub is_full : Queue → Bool
  pub is_empty : Queue → Bool
  pub front : Queue → Result Demand
  pub pop_front : Queue → Result Queue
  pub push_back : Queue → Demand → Result Queue
  pub size : Queue → ℕ

-- `ensure_queue_not_empty` and `ensure_queue_not_full`, over the queue's own test.
unfoldable pub ensure_queue_not_empty : Bool → Result (Unit {0})
ensure_queue_not_empty empty = if empty then throw msg_chain_is_empty else ok tt

unfoldable pub ensure_queue_not_full : Bool → Result (Unit {0})
ensure_queue_not_full full = if full then throw msg_chain_is_full else ok tt

-- The `front` and `pop_front` of `std::deque` on a queue that is not empty.
abbrev pub deque_front : List Demand → Demand
deque_front [] = empty_demand
deque_front (d ∷ ds) = d

abbrev pub deque_pop_front : List Demand → List Demand
deque_pop_front [] = []
deque_pop_front (d ∷ ds) = ds

-- The laws of a queue that holds at most `limit` demands, told by the list of its contents,
-- oldest first. The implementations are beside this file.
abbrev pub is_full_at : Option ℕ → ℕ → Bool
is_full_at none n = false
is_full_at (some k) n = k == n

abbrev pub Within : Option ℕ → ℕ → Type 0
Within none n = Unit
Within (some k) n = n ≤ k

abbrev pub Positive : Option ℕ → Type 0
Positive none = Unit
Positive (some k) = 0 < k

pub record QueueLaws (ops : QueueOps) (limit : Option ℕ) : Type 1 where
  pub IsValid : ops.Queue → Type 0
  pub contents : ops.Queue → List Demand
  pub within : (q : ops.Queue) → IsValid q → Within limit (length (contents q))
  pub is_empty_law : (q : ops.Queue) → IsValid q → ops.is_empty q ≡ is_nil (contents q)
  pub is_full_law :
      (q : ops.Queue) → IsValid q → ops.is_full q ≡ is_full_at limit (length (contents q))
  pub size_law : (q : ops.Queue) → IsValid q → ops.size q ≡ length (contents q)
  pub take_law :
      (q : ops.Queue) (d : Demand) (ds : List Demand)
      → IsValid q
      → contents q ≡ d ∷ ds
      → (ops.front q ≡ ok d)
        × ((q' : ops.Queue) × (ops.pop_front q ≡ ok q') × IsValid q' × (contents q' ≡ ds))
  pub push_law :
      (q : ops.Queue) (d : Demand)
      → IsValid q
      → ops.is_full q ≡ false
      → (q' : ops.Queue) × (ops.push_back q d ≡ ok q')
        × IsValid q'
        × (contents q' ≡ contents q ++ d ∷ [])
  pub empty_law :
      (q : ops.Queue)
      → IsValid q
      → contents q ≡ []
      → (ops.front q ≡ throw msg_chain_is_empty) × (ops.pop_front q ≡ throw msg_chain_is_empty)
  pub full_law :
      (q : ops.Queue) (d : Demand)
      → IsValid q
      → ops.is_full q ≡ true
      → ops.push_back q d ≡ throw msg_chain_is_full
