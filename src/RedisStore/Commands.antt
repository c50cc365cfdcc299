-- ===== src/RedisStore/Commands.antt =====
-- What the adapter calls: the commands of Redis, and JSON.
use passmower.Prelude.{
  ℕ, String, Option, none, some, Bool, false, List, [], ◌∷◌, ◌++◌, ◌==◌, ◌≡◌, if◌then◌else◌,
  contains, without, Assoc, insert,
}

-- The value of a key, by the command that reads it: GET, HGETALL, LRANGE 0 -1, SMEMBERS. A key has
-- one type, so at most one of them is not empty.
pub record Stored : Type 0 where
  pub text : Option String
  pub hash : Assoc String
  pub list : List String
  pub members : List String

abbrev pub nothing : Stored
nothing = record { text = none; hash = []; list = []; members = [] }

-- The commands, with what Redis documents for a key of the command's own type.
pub record Redis : Type 1 where
  pub State : Type 0
  pub value_at : State → String → Stored
  pub set : String → String → State → State
  pub hset : String → String → String → State → State
  pub rpush : String → String → State → State
  pub sadd : String → String → State → State
  pub srem : String → String → State → State
  pub del : String → State → State
  pub expire : String → ℕ → State → State
  pub ttl_below : String → ℕ → State → Bool
  pub value_at-set :
      (k t j : String) (s : State)
      → value_at (set k t s) j ≡ (if k == j then record nothing { text = some t } else value_at s j)
  pub value_at-hset :
      (k f v j : String) (s : State)
      → value_at (hset k f v s) j ≡ (
          if k == j
          then record (value_at s k) { hash = insert f v (value_at s k).hash }
          else value_at s j)
  pub value_at-rpush :
      (k x j : String) (s : State)
      → value_at (rpush k x s) j ≡ (
          if k == j
          then record (value_at s k) { list = (value_at s k).list ++ x ∷ [] }
          else value_at s j)
  pub value_at-sadd :
      (k x j : String) (s : State)
      → value_at (sadd k x s) j ≡ (
          if k == j
          then record (value_at s k) {
            members =
                if contains x (value_at s k).members
                then (value_at s k).members
                else (value_at s k).members ++ x ∷ [];
          }
          else value_at s j)
  pub value_at-srem :
      (k x j : String) (s : State)
      → value_at (srem k x s) j ≡ (
          if k == j
          then record (value_at s k) { members = without x (value_at s k).members }
          else value_at s j)
  pub value_at-del :
      (k j : String) (s : State) → value_at (del k s) j ≡ (if k == j then nothing else value_at s j)
  pub value_at-expire :
      (k : String) (n : ℕ) (j : String) (s : State) → value_at (expire k n s) j ≡ value_at s j

-- JSON.stringify and JSON.parse on payloads, and the text of a field of one.
pub record Json : Type 1 where
  pub Payload : Type 0
  pub stringify : Payload → String
  pub parse : String → Payload
  pub field : String → Payload → Option String
  pub seconds_left : String → Payload → ℕ  -- Math.floor(payload[key] - Date.now() / 1000)
  pub parse-stringify : (p : Payload) → parse (stringify p) ≡ p
  pub stringify_nonempty : (p : Payload) → (stringify p == "") ≡ false
