-- ===== src/Gateway/Clients/Leaving.antt =====
-- gateway/src/websocket.rs: what is left of a client that is removed.
use Prim.Native.String.{String}
use mexchange_study.Common.{
  ℕ, ◌≡◌, refl, sym, ◌∙◌, ap, subst, inl, inr, Bool, true, false, ◌&&◌, ◌||◌, none, some, List, [],
  ◌∷◌, arith, ◌==◌, if◌then◌else◌, Bool-cases, Option-cases, List-cases, same_text, same_text→eq,
  same_text_self,
}
use mexchange_study.Common.IdMap
use mexchange_study.Common.TextMap
use mexchange_study.Common.TextMap.{TextMap}
use mexchange_study.Gateway.Clients.{
  ChannelManager, contains, add_member, remove_member, get_subscribers, get_sender, get_user_id,
  leave_channel, channels_of, leave_all, is_bot, remove_client,
}

pub contains-remove_member :
    (d client : ℕ) (xs : List ℕ)
    → contains d (remove_member client xs) ≡ (if d == client then false else contains d xs)
unfolding contains remove_member
contains-remove_member d client [] = ground arith
contains-remove_member d client (x ∷ xs) = ground (arith, contains-remove_member d client xs)

contains-add_member :
    (d client : ℕ) (xs : List ℕ)
    → contains d (add_member client xs) ≡ (d == client || contains d xs)
unfolding contains add_member
contains-add_member d client xs = elim (Bool-cases (contains client xs)) [
  | inr new ↦ rw new refl
  | inl old ↦ elim (Bool-cases (d == client)) [
    | inr other ↦ rw (old, other) refl
    | inl same ↦ rw (old, same) (subst (λ (x : ℕ). contains x xs ≡ true) (ground arith) old)
  ]
]

-- Whether the client is subscribed to the channel.
abbrev pub joined : ℕ → String → TextMap (List ℕ) → Bool
joined client channel m = elim (TextMap.get channel m) [
  | none ↦ false
  | some subs ↦ contains client subs
]

leave_channel-here :
    (d client : ℕ) (channel : String) (m : TextMap (List ℕ))
    → joined d channel (leave_channel client channel m)
      ≡ (if d == client then false else joined d channel m)
unfolding leave_channel contains
leave_channel-here d client channel m = elim (Option-cases (TextMap.get channel m)) [
  | inl e ↦ rw (e, leave_channel, joined, e) (ground arith)
  | inr (subs, e) ↦
      let cut = contains-remove_member d client subs in
      let gone = TextMap.get-remove channel channel m in
      let here = same_text_self channel in
      elim (List-cases (remove_member client subs)) [
        | inl empty ↦ ground (arith, cut, gone, here, e, empty)
        | inr (x, xs, more) ↦
            ground (arith, cut, TextMap.get-insert channel channel (x ∷ xs) m, here, e, more)
      ]
]

leave_channel-elsewhere :
    (client : ℕ) (c channel : String) (m : TextMap (List ℕ))
    → same_text c channel ≡ false
    → TextMap.get c (leave_channel client channel m) ≡ TextMap.get c m
unfolding leave_channel
leave_channel-elsewhere client c channel m other = elim (Option-cases (TextMap.get channel m)) [
  | inl e ↦ rw (e, leave_channel) refl
  | inr (subs, e) ↦ elim (List-cases (remove_member client subs)) [
    | inl empty ↦ ground (arith, TextMap.get-remove c channel m, other, e, empty)
    | inr (x, xs, more) ↦ ground (arith, TextMap.get-insert c channel (x ∷ xs) m, other, e, more)
  ]
]

pub leave_channel-joined :
    (d client : ℕ) (c channel : String) (m : TextMap (List ℕ))
    → joined d c (leave_channel client channel m)
      ≡ (if same_text c channel && d == client then false else joined d c m)
leave_channel-joined d client c channel m = elim (Bool-cases (same_text c channel)) [
  | inr other ↦ rw (other, joined, leave_channel-elsewhere client c channel m other) refl
  | inl same ↦
      let e : channel ≡ c = sym (same_text→eq c channel same) in
      rw same (
        subst
          (λ (x : String).
            joined d x (leave_channel client channel m)
            ≡ (if d == client then false else joined d x m))
          e (leave_channel-here d client channel m))
]

-- Whether the text is on the list.
abbrev listed : String → List String → Bool
listed c [] = false
listed c (x ∷ xs) = same_text c x || listed c xs

leave_all-joined :
    (d client : ℕ) (c : String) (channels : List String) (m : TextMap (List ℕ))
    → joined d c (leave_all client channels m)
      ≡ (if listed c channels && d == client then false else joined d c m)
unfolding leave_all
leave_all-joined d client c [] m = refl
leave_all-joined d client c (x ∷ xs) m =
    rw
      (
        leave_all-joined d client c xs (leave_channel client x m),
        leave_channel-joined d client c x m,
      )
      (ground arith)

channels_of-listed :
    (client : ℕ) (c : String) (m : TextMap (List ℕ))
    → joined client c m ≡ true
    → listed c (channels_of client m) ≡ true
unfolding channels_of TextMap.get contains
channels_of-listed client c [] h = ground arith
channels_of-listed client c ((x, subs) ∷ m) h = elim (Bool-cases (same_text c x)) [
  | inl same ↦
      let here : contains client subs ≡ true = rw (same, joined) at h in rw (here, same) refl
  | inr other ↦
      let rest = channels_of-listed client c m (rw (other, joined) at h) in
      elim (Bool-cases (contains client subs)) [
        | inl here ↦ rw (here, other) rest
        | inr there ↦ rw there rest
      ]
]

pub get_subscribers-joined :
    (d : ℕ) (channel : String) (m : ChannelManager)
    → contains d (get_subscribers channel m) ≡ joined d channel m.subscribers
unfolding get_subscribers contains
get_subscribers-joined d channel m = ground arith

leave_all-channels_of :
    (d client : ℕ) (c : String) (m : TextMap (List ℕ))
    → joined d c (leave_all client (channels_of client m) m)
      ≡ (if d == client then false else joined d c m)
leave_all-channels_of d client c m =
    let left = leave_all-joined d client c (channels_of client m) m in
    elim (Bool-cases (d == client)) [
      | inr other ↦ ground (arith, left, other)
      | inl same ↦
          let e : client ≡ d = ground arith in
          elim (Bool-cases (joined d c m)) [
            | inr never ↦ ground (arith, left, same, never)
            | inl on ↦
                let on' : joined client c m ≡ true =
                  subst (λ (x : ℕ). joined x c m ≡ true) (sym e) on in
                ground (arith, left, same, channels_of-listed client c m on')
          ]
    ]

is_bot-remove_client :
    (client d : ℕ) (m : ChannelManager)
    → is_bot d (remove_client client m) ≡ (if d == client then false else is_bot d m)
unfolding remove_client is_bot
is_bot-remove_client client d m = elim (Option-cases m.bot_client_id) [
  | inl e ↦ ground (arith, e)
  | inr (b, e) ↦ ground (arith, e)
]

-- A removed client is on no channel, can be sent nothing, is authenticated as nobody and is not the
-- bot; every other client stays on its channels, keeps its sender and its user.
pub remove_client-only :
    (client d : ℕ) (channel : String) (m : ChannelManager)
    → let m' = remove_client client m in
      (contains d (get_subscribers channel m')
        ≡ (if d == client then false else contains d (get_subscribers channel m)))
      × (get_sender d m' ≡ (if d == client then none else get_sender d m))
      × (get_user_id d m' ≡ (if d == client then none else get_user_id d m))
      × (is_bot d m' ≡ (if d == client then false else is_bot d m))
unfolding remove_client get_sender get_user_id
remove_client-only client d channel m = (
  get_subscribers-joined d channel (remove_client client m)
      ∙ leave_all-channels_of d client channel m.subscribers
      ∙ ap (λ (b : Bool). if d == client then false else b)
          (sym (get_subscribers-joined d channel m)),
  IdMap.get-remove d client m.client_senders,
  IdMap.get-remove d client m.authenticated_users,
  is_bot-remove_client client d m,
)
