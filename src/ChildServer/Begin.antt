-- ===== src/ChildServer/Begin.antt =====
-- The start of `initGame` of childServer.c: the board, and a snake for each client.
use snuffin.Log.{info_level}
use snuffin.ChildServer.Logging.{send_log_lem, log_msg_lem}
use snuffin.ChildServer.Requests.{count_players}
use snuffin.Game.Loading.{init_board-IsValid, load_snake_number-IsValid, Loaded}
use snuffin.Game.Valid.{IsValid}
use snuffin.Game.Board.{init_board, max_players, alive, GameBoard}
use snuffin.ChildServer.State.{Client, Server, client_at}
use snuffin.ChildServer.Match.{start_board, load_players}
use snuffin.Common.{
  codes, sym, refl, ◌^◌, ◌∙◌, ◌-◌, ◌<◌, subst, ◌≤◌, ◌≢◌, arith, length, get_elem?, ◌∷◌, ◌≡◌, ◌+◌,
  Option, ℕ, List, zero, suc, some, none, [],
}

-- What the loop over the clients from number i on makes of the board.
record Begun (i : ℕ) (cs : List (Option Client)) (b b' : GameBoard) : Type 0 where
  pub valid : IsValid b'
  pub snakes :
      (j : ℕ) (c : Client) → client_at cs j ≡ some c → get_elem? b'.p_def (i + j) ≡ some alive
  pub free :
      (j : ℕ) → get_elem? cs j ≡ some none → get_elem? b'.p_def (i + j) ≡ get_elem? b.p_def (i + j)
  pub before : (j : ℕ) → j < i → get_elem? b'.p_def j ≡ get_elem? b.p_def j

next : (i j : ℕ) → i + 1 + j ≡ i + suc j
next i j = omega arith

from_zero : (n : ℕ) → 0 + n ≡ n
from_zero n = omega arith

module _ (i : ℕ) (cs : List (Option Client)) (b b' : GameBoard)
    (begun : Begun (i + 1) cs b b') where
  snakes_none :
      (j : ℕ) (c : Client)
      → client_at (none ∷ cs) j ≡ some c
      → get_elem? b'.p_def (i + j) ≡ some alive
  unfolding client_at
  snakes_none zero c e = cc
  snakes_none (suc j) c e =
      subst (λ k. get_elem? b'.p_def k ≡ some alive) (next i j) (begun.snakes j c e)

  free_none :
      (j : ℕ)
      → get_elem? (none ∷ cs) j ≡ some none
      → get_elem? b'.p_def (i + j) ≡ get_elem? b.p_def (i + j)
  free_none zero e = begun.before (i + 0) (omega arith)
  free_none (suc j) e =
      subst (λ k. get_elem? b'.p_def k ≡ get_elem? b.p_def k) (next i j) (begun.free j e)

module _ (i : ℕ) (cs : List (Option Client)) (c : Client) (b b1 b' : GameBoard)
    (loaded : Loaded b b1 (i + 1)) (begun : Begun (i + 1) cs b1 b') where
  kept : (j : ℕ) → i ≢ j → get_elem? b1.p_def j ≡ get_elem? b.p_def j
  kept j other = loaded.others j (λ e. other (omega (arith, e)))

  snakes_some :
      (j : ℕ) (q : Client)
      → client_at (some c ∷ cs) j ≡ some q
      → get_elem? b'.p_def (i + j) ≡ some alive
  unfolding client_at
  snakes_some zero q e =
      let here : i + 1 - 1 ≡ i + 0 = omega arith in
      begun.before (i + 0) (omega arith)
      ∙ subst (λ k. get_elem? b1.p_def k ≡ some alive) here loaded.living
  snakes_some (suc j) q e =
      subst (λ k. get_elem? b'.p_def k ≡ some alive) (next i j) (begun.snakes j q e)

  free_some :
      (j : ℕ)
      → get_elem? (some c ∷ cs) j ≡ some none
      → get_elem? b'.p_def (i + j) ≡ get_elem? b.p_def (i + j)
  free_some zero e = cc
  free_some (suc j) e =
      subst (λ k. get_elem? b'.p_def k ≡ get_elem? b1.p_def k) (next i j) (begun.free j e)
      ∙ kept (i + suc j) (λ e. omega (arith, e))

load_players_lem :
    (i : ℕ) (cs : List (Option Client)) (b : GameBoard)
    → i + length cs ≤ max_players
    → IsValid b
    → (b' : GameBoard) × (load_players i cs b ≡ some b') × Begun i cs b b'
unfolding load_players client_at
load_players_lem i [] b room valid = (
  b,
  refl,
  record { valid = valid; snakes = λ j c e. cc; free = λ j e. refl; before = λ j less. refl },
)
load_players_lem i (none ∷ cs) b room valid =
    let (b', e, begun) = load_players_lem (i + 1) cs b (omega (arith, room)) valid in
    (
      b',
      e,
      record {
        valid = begun.valid;
        snakes = snakes_none i cs b b' begun;
        free = free_none i cs b b' begun;
        before = λ j less. begun.before j (omega (arith, less));
      },
    )
load_players_lem i (some c ∷ cs) b room valid =
    let (b1, e1, loaded) =
      load_snake_number-IsValid (i + 1) b (omega arith) (omega (arith, room)) valid in
    let (b', e, begun) = load_players_lem (i + 1) cs b1 (omega (arith, room)) loaded.valid in
    (
      b',
      rw (e1) e,
      record {
        valid = begun.valid;
        snakes = snakes_some i cs c b b1 b' loaded begun;
        free = free_some i cs c b b1 b' loaded begun;
        before = λ j less.
            begun.before j (omega (arith, less))
            ∙ kept i cs c b b1 b' loaded begun j (λ e. omega (arith, less, e));
      },
    )

-- The number of players is not a part of what makes a board valid.
recount : (b : GameBoard) (n : ℕ) → IsValid b → IsValid (record b { num_pl = n })
recount b n valid = record {
  b_size = valid.b_size;
  g_size = valid.g_size;
  def_size = valid.def_size;
  dir_size = valid.dir_size;
  pos_size = valid.pos_size;
  heads = λ i e.
      let h = valid.heads i e in
      record {
        head = h.head;
        dir = h.dir;
        head_eq = h.head_eq;
        dir_eq = h.dir_eq;
        inside = h.inside;
        trail = h.trail;
      };
}

-- The board that a game begins with: in play, with a living snake for each client and for no one
-- else.
pub record IsFirstBoard (cs : List (Option Client)) (b : GameBoard) : Type 0 where
  pub in_play : IsValid b
  pub players : b.num_pl ≡ count_players cs
  pub clients_live :
      (n : ℕ) (c : Client) → client_at cs n ≡ some c → get_elem? b.p_def n ≡ some alive
  pub others_not : (n : ℕ) → get_elem? cs n ≡ some none → get_elem? b.p_def n ≢ some alive

-- A game of at most four clients begins: the loops that draw the snakes end within their fuel, and
-- `initGame` makes a board in play, on which each client has a living snake and no place without a
-- client has one. The clients are as before. The arrays of the board have four entries and the
-- process number at most seven digits.
pub start_board-IsFirstBoard :
    {D : Type 0} (uninit : GameBoard) (s : Server D)
    → length s.clients ≤ max_players
    → length uninit.p_dir ≡ max_players
    → length uninit.p_pos ≡ max_players
    → s.log.pid < 10 ^ 7
    → (t : Server D) × (b : GameBoard) × (start_board uninit s ≡ some t)
      × (t.game_board ≡ some b)
      × (t.clients ≡ s.clients)
      × IsFirstBoard s.clients b
unfolding start_board
start_board-IsFirstBoard uninit s room dirs positions small =
    let (l, logged, _) = send_log_lem (codes "Game starting") info_level s.log small in
    let (fresh, nobody) = init_board-IsValid uninit dirs positions in
    let (b, e, begun) =
      load_players_lem 0 s.clients (init_board uninit) (omega (arith, room)) fresh in
    let first : GameBoard = record b { num_pl = count_players s.clients } in
    (
      record s { log = l; game_board = some first },
      first,
      rw (log_msg_lem "Game starting" s.log logged, e) refl,
      refl,
      refl,
      record {
        in_play = recount b (count_players s.clients) begun.valid;
        players = refl;
        clients_live = λ n c place.
            subst (λ k. get_elem? b.p_def k ≡ some alive) (from_zero n) (begun.snakes n c place);
        others_not = λ n place living. nobody n (
            subst (λ k. get_elem? (init_board uninit).p_def k ≡ get_elem? b.p_def k) (from_zero n)
              (sym (begun.free n place))
            ∙ living);
      },
    )
