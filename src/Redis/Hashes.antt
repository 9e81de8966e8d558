-- ===== src/Redis/Hashes.antt =====
-- The commands on hashes that the pools and the prices use, as the client sends them: HGETALL, HMGET
-- and HSET of several fields, which are written in their order.
use dora_service_utils.Base.{◌≡◌, refl, ap, ◌∙◌, Option, some, List, [], ◌∷◌, ◌++◌, if◌then◌else◌}
use dora_service_utils.Base.Text.{Str, str_eq, str_beq}
use dora_service_utils.Base.Dict.{Dict, get, insert, get-insert, get-insert_self}
use dora_service_utils.Redis.{Store, hgetall, hash_of}

-- A command that has been sent or queued.
pub data Command : Type 0 where
  hget_all : Str → Command
  hm_get : Str → List Str → Command
  h_set : Str → List (Str × Str) → Command

unfoldable pub write_fields : List (Str × Str) → Dict Str Str → Dict Str Str
write_fields [] h = h
write_fields ((k, v) ∷ fields) h = write_fields fields (insert k v h)

-- HSET of several fields
unfoldable pub hset_fields : Str → List (Str × Str) → Store → Store
unfolding write_fields
hset_fields k fields store = insert k (write_fields fields (hgetall k store)) store

-- What a command leaves in the store.
unfoldable pub apply_command : Command → Store → Store
unfolding hset_fields
apply_command (hget_all k) store = store
apply_command (hm_get k fields) store = store
apply_command (h_set k fields) store = hset_fields k fields store

-- HMGET: the fields with their values, in the order in which they were asked for.
unfoldable pub read_fields : List Str → Dict Str Str → List (Str × Option Str)
read_fields [] h = []
read_fields (k ∷ keys) h = (k, get k h) ∷ read_fields keys h

-- The fields of HGETALL, each of which is there.
unfoldable pub all_fields : Dict Str Str → List (Str × Option Str)
all_fields [] = []
all_fields ((k, v) ∷ h) = (k, some v) ∷ all_fields h

-- The last value that is written to a field, or else the value that it had.
abbrev pub written : Str → List (Str × Str) → Option Str → Option Str
written k [] old = old
written k ((j, v) ∷ fields) old = written k fields (if str_beq j k then some v else old)

abbrev pub overlay : List Str → List (Str × Str) → Dict Str Str → List (Str × Option Str)
overlay [] fields h = []
overlay (k ∷ keys) fields h = (k, written k fields (get k h)) ∷ overlay keys fields h

pub get-write_fields :
    (k : Str) (fields : List (Str × Str)) (h : Dict Str Str)
    → get k (write_fields fields h) ≡ written k fields (get k h)
unfolding write_fields
get-write_fields k [] h = refl
get-write_fields k ((j, v) ∷ fields) h =
    get-write_fields k fields (insert j v h) ∙ ap (written k fields) (get-insert j k v h)

pub read_fields-write_fields :
    (keys : List Str) (fields : List (Str × Str)) (h : Dict Str Str)
    → read_fields keys (write_fields fields h) ≡ overlay keys fields h
unfolding read_fields
read_fields-write_fields [] fields h = refl
read_fields-write_fields (k ∷ keys) fields h =
    rw (get-write_fields k fields h)
      (ap (λ r. (k, written k fields (get k h)) ∷ r) (read_fields-write_fields keys fields h))

pub write_fields-write_fields :
    (fields more : List (Str × Str)) (h : Dict Str Str)
    → write_fields more (write_fields fields h) ≡ write_fields (fields ++ more) h
unfolding write_fields
write_fields-write_fields [] more h = refl
write_fields-write_fields ((k, v) ∷ fields) more h =
    write_fields-write_fields fields more (insert k v h)

pub hgetall-hset_fields :
    (k : Str) (fields : List (Str × Str)) (store : Store)
    → hgetall k (hset_fields k fields store) ≡ write_fields fields (hgetall k store)
unfolding hset_fields
hgetall-hset_fields k fields store =
    ap hash_of (get-insert_self k (write_fields fields (hgetall k store)) store)
