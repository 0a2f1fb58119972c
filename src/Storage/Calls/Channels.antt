-- ===== src/Storage/Calls/Channels.antt =====
-- The channels of the watchers: no buffer overflows, and none is closed twice or sent to once closed.
use mathlib.Core.List.{Mem, Nodup, map-append, perm_middle, append_assoc, append-nil}
use mathlib.Core.List.{Nodup-cons, mem-cons}
use mathlib.Core.List.Perm
use mathlib.Core.List.{Perm}
use mathlib.Core.Logic.Or
use native.Mathlib.Bridge.{le_prop}
use discobox.Prelude.{
  ℕ, suc, ◌≤◌, ◌<◌, ◌≡◌, refl, subst, inl, inr, List, [], ◌∷◌, ◌++◌, map, ◌==◌, nat_eq, arith, All,
  All-append, length, length-append, Bool-cases,
}
use discobox.Storage.Memory.{
  MemoryStorage, Channel, StorageEvent, channel_capacity, send, send_all, watch, cancel, close,
  find_channel, drop_channel,
}
use discobox.Storage.Calls.{receive, receive_from, take_oldest}

abbrev pub ids : List Channel → List ℕ
ids = map λ ch. ch.id

abbrev pub IsBounded : Channel → Type 0
IsBounded ch = length ch.buffer ≤ channel_capacity

-- Every buffer is within its capacity, and the open and the closed channels are all different and
-- were all made by Watch. To close a closed channel, or to send to one, would panic.
pub record IsChannels (watchers closed : List Channel) (opened : ℕ) : Type 0 where
  pub bounded : All IsBounded watchers
  pub numbered : (i : ℕ) → Mem i (ids watchers ++ ids closed) → i < opened
  pub distinct : Nodup (ids watchers ++ ids closed)

-- Lists of channels with the same identities are as good.
rearranged :
    {w w' c c' : List Channel} {n : ℕ}
    → All IsBounded w'
    → Perm (ids w ++ ids c) (ids w' ++ ids c')
    → IsChannels w c n
    → IsChannels w' c' n
rearranged b p v = record {
  bounded = b;
  numbered = λ i m. v.numbered i ((Perm.mem_iff p).1 m);
  distinct = Perm.nodup p v.distinct;
}

ids-send_all : (event : StorageEvent) (chs : List Channel) → ids (send_all event chs) ≡ ids chs
unfolding send_all send
ids-send_all event [] = refl
ids-send_all event (ch ∷ chs) = ground (arith, ids-send_all event chs)

send_all-IsBounded :
    (event : StorageEvent) (chs : List Channel)
    → All IsBounded chs
    → All IsBounded (send_all event chs)
unfolding send_all send
send_all-IsBounded event [] b = tt
send_all-IsBounded event (ch ∷ chs) b =
    ground (arith, send_all-IsBounded event chs b.1, length-append ch.buffer (event ∷ []))

pub send_all-IsChannels :
    (event : StorageEvent) {w c : List Channel} {n : ℕ}
    → IsChannels w c n
    → IsChannels (send_all event w) c n
send_all-IsChannels event {w} {c} v =
    rearranged (send_all-IsBounded event w v.bounded)
      (rw (ids-send_all event w) (Perm.refl (ids w ++ ids c))) v

ids-receive_from : (id : ℕ) (chs : List Channel) → ids (receive_from id chs) ≡ ids chs
unfolding receive_from
ids-receive_from id [] = refl
ids-receive_from id (ch ∷ chs) = ground (arith, ids-receive_from id chs)

length-take_oldest-le : (events : List StorageEvent) → length (take_oldest events) ≤ length events
unfolding take_oldest
length-take_oldest-le [] = omega arith
length-take_oldest-le (event ∷ events) = omega arith

receive_from-IsBounded :
    (id : ℕ) (chs : List Channel) → All IsBounded chs → All IsBounded (receive_from id chs)
unfolding receive_from
receive_from-IsBounded id [] b = tt
receive_from-IsBounded id (ch ∷ chs) b =
    ground (arith, receive_from-IsBounded id chs b.1, length-take_oldest-le ch.buffer)

split_channel :
    (id : ℕ) (chs : List Channel)
    → Perm (ids chs) (ids (drop_channel id chs) ++ ids (find_channel id chs))
unfolding drop_channel find_channel
split_channel id [] = Perm.refl []
split_channel id (ch ∷ chs) = elim (Bool-cases (ch.id == id)) [
  | inl hit ↦ rw hit (
      subst (λ (l : List ℕ). Perm (ch.id ∷ l) (ids chs ++ ch.id ∷ [])) (append-nil (ids chs))
        (Perm.symm (perm_middle (ids chs) [])))
  | inr miss ↦ rw miss (Perm.cons ch.id (split_channel id chs))
]

drop_channel-IsBounded :
    (id : ℕ) (chs : List Channel) → All IsBounded chs → All IsBounded (drop_channel id chs)
unfolding drop_channel
drop_channel-IsBounded id [] b = tt
drop_channel-IsBounded id (ch ∷ chs) b = ground (arith, drop_channel-IsBounded id chs b.1)

-- A channel that has just been made.
abbrev new_channel : ℕ → Channel
new_channel n = record { id = n; buffer = [] }

open_channel-IsChannels :
    {w c : List Channel} {n : ℕ} → IsChannels w c n → IsChannels (new_channel n ∷ w) c (suc n)
open_channel-IsChannels {n} v = record {
  bounded = (omega arith, v.bounded);
  numbered = λ i m.
      Or.elim le_prop (mem-cons.0 m) (λ e. omega (arith, e)) (λ h. omega (arith, v.numbered i h));
  distinct = Nodup-cons.1 (λ m. absurd (omega (arith, v.numbered n m)), v.distinct);
}

abbrev pub Channels : MemoryStorage → Type 0
Channels s = IsChannels s.watchers s.closed s.opened

module _ (s : MemoryStorage) (v : Channels s) where
  pub receive-Channels : (id : ℕ) → Channels (receive id s)
  unfolding receive
  receive-Channels id =
      rearranged (receive_from-IsBounded id s.watchers v.bounded)
        (rw (ids-receive_from id s.watchers, ids-receive_from id s.closed) (Perm.refl _)) v

  pub cancel-Channels : (id : ℕ) → Channels (cancel id s)
  unfolding cancel
  cancel-Channels id =
      rearranged (drop_channel-IsBounded id s.watchers v.bounded)
        (rw
          (
            map-append (λ (ch : Channel). ch.id) (find_channel id s.watchers) s.closed,
            ← append_assoc,
          )
          (Perm.append_right (ids s.closed) (split_channel id s.watchers)))
        v

  pub close-Channels : Channels (close s)
  unfolding close
  close-Channels =
      rearranged tt (rw (map-append (λ (ch : Channel). ch.id) s.watchers s.closed) (Perm.refl _)) v

  pub watch-Channels : Channels (watch s).1
  unfolding watch
  watch-Channels =
      rearranged (All-append IsBounded s.watchers _ v.bounded (omega arith, tt))
        (rw
          (
            map-append (λ (ch : Channel). ch.id) s.watchers (new_channel s.opened ∷ []),
            append_assoc,
          )
          (Perm.symm (perm_middle (ids s.watchers) (ids s.closed))))
        (open_channel-IsChannels v)
