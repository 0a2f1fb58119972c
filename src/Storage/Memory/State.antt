-- ===== src/Storage/Memory/State.antt =====
-- internal/storage/memory.go: the store's state, Watch, notifyWatchers and Close.
-- internal/types/storage.go: the events.
use discobox.Prelude.{
  Str, ℕ, suc, List, [], ◌∷◌, ◌++◌, if◌then◌else◌, ◌==◌, nat_eq, ltb, length, text,
}
use discobox.Prelude.Dict.{Dict}
use discobox.Types.Service.{Service}
use discobox.Types.Route.{Route}
use discobox.Types.User.{User, ApiKey}

pub data Object : Type 0 where
  service_object : Service → Object
  route_object : Route → Object

pub record StorageEvent : Type 0 where
  pub type : Str
  pub kind : Str
  pub id : Str
  pub object : Object

-- A buffered channel with its identity and the events that its reader has not yet taken.
pub record Channel : Type 0 where
  pub id : ℕ
  pub buffer : List StorageEvent

-- `closed` holds the channels that are closed, with what can still be read from them, and `opened`
-- is the number of channels ever made: Go has both in its heap.
pub record MemoryStorage : Type 0 where
  pub services : Dict Str Service
  pub routes : Dict Str Route
  pub users : Dict Str User
  pub usernames : Dict Str Str
  pub api_keys : Dict Str ApiKey
  pub watchers : List Channel
  pub closed : List Channel
  pub opened : ℕ

-- NewMemory
abbrev pub new_memory : MemoryStorage
new_memory = record {
  services = [];
  routes = [];
  users = [];
  usernames = [];
  api_keys = [];
  watchers = [];
  closed = [];
  opened = 0;
}

-- make(chan types.StorageEvent, 100)
abbrev pub channel_capacity : ℕ
channel_capacity = 100

-- select { case watcher <- event: default: }
unfoldable pub send : StorageEvent → Channel → Channel
send event ch =
    if ltb (length ch.buffer) channel_capacity
    then record ch { buffer = ch.buffer ++ event ∷ [] }
    else ch

unfoldable pub send_all : StorageEvent → List Channel → List Channel
send_all event [] = []
send_all event (ch ∷ chs) = send event ch ∷ send_all event chs

unfoldable pub notify_watchers : StorageEvent → MemoryStorage → MemoryStorage
notify_watchers event s = record s { watchers = send_all event s.watchers }

-- Watch: the new store and the channel that the caller reads.
unfoldable pub watch : MemoryStorage → ℕ × MemoryStorage
watch s = (
  s.opened,
  record s {
    watchers = s.watchers ++ record { id = s.opened; buffer = [] } ∷ [];
    opened = suc s.opened;
  },
)

-- The loop that looks for a channel among the watchers: the rest, and the channel when it is there.
unfoldable pub find_channel : ℕ → List Channel → List Channel
find_channel id [] = []
find_channel id (ch ∷ chs) = if ch.id == id then ch ∷ [] else find_channel id chs

unfoldable pub drop_channel : ℕ → List Channel → List Channel
drop_channel id [] = []
drop_channel id (ch ∷ chs) = if ch.id == id then chs else ch ∷ drop_channel id chs

-- The goroutine of Watch once its context is done: the watcher is removed and its channel closed,
-- and nothing happens if Close was there first.
unfoldable pub cancel : ℕ → MemoryStorage → MemoryStorage
cancel id s = record s {
  watchers = drop_channel id s.watchers;
  closed = find_channel id s.watchers ++ s.closed;
}

-- Close
unfoldable pub close : MemoryStorage → MemoryStorage
close s = record s { watchers = []; closed = s.watchers ++ s.closed }

-- The constructors of the events that the operations send.
abbrev pub service_event : Str → Str → Service → StorageEvent
service_event type id service = record {
  type = type;
  kind = text "service";
  id = id;
  object = service_object service;
}

abbrev pub route_event : Str → Str → Route → StorageEvent
route_event type id route = record {
  type = type;
  kind = text "route";
  id = id;
  object = route_object route;
}
