-- ===== src/Handler/Served.antt =====
-- A call of AccessToLogic, through thrift's client and the server's processor, to the handler and back.
use short_message.Prelude.{
  arith, ℕ, ◌∙◌, ℕ, ◌<◌, ◌^◌, ◌≡◌, refl, Bool, true, none, List, ◌∷◌, [], ◌++◌, Bytes, length,
}
use short_message.Prelude.Int.{ℤ}
use short_message.Memory.{text}
use short_message.Machine.{ok}
use short_message.Protocol.{ControlHead, Satellite, control_head}
use short_message.Protocol.Signal
use short_message.Database.Cover.{all_beams}
use short_message.Mobile.{process_login}
use short_message.Mobile.Cover.{read_cover}
use short_message.Mobile.Login.{LoginDone, process_login_lem}
use short_message.Mobile.Returns.{process_login-Total}
use short_message.World.{Env, World, run}
use short_message.Rpc.Wire.{TProtocol, IsRoundTrip, IsConsuming}
use short_message.Rpc.Service.{send_access_to_logic, dispatch_call, recv}
use short_message.Rpc.Service.Call.{Answered, dispatch_call-send_access_to_logic}
use short_message.Handler.{Uninitialised, dispatch, access_to_logic, returned, handler}

module _ (env : Env) where
  open env use {server.{Db}}

  -- A login that returns, with what it has done.
  login_ends :
      (h : ControlHead) (cover : Satellite) (w : World Db) (pool : List Bool)
      → read_cover h.content ≡ ok cover
      → all_beams cover.sates_param ≡ true
      → w.pool ≡ true ∷ pool
      → (w' : World Db) × (process_login env h w ≡ ok (tt, w')) × LoginDone env h w w' cover
  login_ends h cover w pool e good free =
      let (u, w', ends) = process_login-Total env h cover w pool e good free in
      let (c, same, done) = (rw ends at (process_login_lem env h w)) in
      let found : cover ≡ c = cc in (w', ends, rw found done)

module _ (env : Env) (stack : Uninitialised) where
  open env use {server.{Db}}

  -- A request that has a head.
  access_to_logic_lem :
      (request : Bytes) (h : ControlHead) (w : World Db)
      → control_head (request ++ 0 ∷ []) ≡ ok h
      → access_to_logic env stack request w ≡ dispatch env stack h.type h w
  unfolding access_to_logic control_head run
  access_to_logic_lem [] h w e = absurd (ground arith)
  access_to_logic_lem (b ∷ request) h w e = rw e refl

  dispatch-login :
      (type : ℕ) (h : ControlHead) (w : World Db)
      → type ≡ Signal.login
      → dispatch env stack type h w ≡ process_login env h w
  unfolding dispatch
  dispatch-login type h w e = rw e refl

module _ (p : TProtocol) (law : IsRoundTrip p) (consuming : IsConsuming p) (env : Env)
    (stack : Uninitialised) where
  open env use {server.{Db}}

  -- A call of AccessToLogic, through the processor to the handler: the handler's branch for the
  -- request's type runs once, on the request's head; the state is what that leaves, and the client
  -- returns without an exception. The processor faults where the handler does. The request has less than
  -- 2 ^ 31 bytes, and with the NUL behind it a whole head.
  pub dispatch_call-request :
      (request : Bytes) (h : ControlHead) (seqid : ℤ) (w : World Db)
      → control_head (request ++ 0 ∷ []) ≡ ok h
      → length request < 2 ^ 31
      → Answered p
          (handler env stack)
          (text "AccessToLogic")
          seqid
          (send_access_to_logic p request)
          w
          (returned (dispatch env stack h.type h w))
  dispatch_call-request request h seqid w head short =
      rw (access_to_logic_lem env stack request h w head) at (
        dispatch_call-send_access_to_logic p law consuming (handler env stack) request seqid w
          short)

  -- The call of AccessToLogic with a login, to its end: where the request, with the NUL behind it, has
  -- a whole head of type 0x00 and holds a whole cover, every beam id of the cover is in 1 … 10, and
  -- the pool has a connection, the processor reads the call and nothing that follows it, the client
  -- returns without an exception, and the login has come out one of the ways of `LoginDone`. The
  -- request has less than 2 ^ 31 bytes.
  pub dispatch_call-login :
      (request : Bytes) (h : ControlHead) (seqid : ℤ) (w : World Db) (cover : Satellite)
      (pool : List Bool) (rest : Bytes)
      → control_head (request ++ 0 ∷ []) ≡ ok h
      → h.type ≡ Signal.login
      → length request < 2 ^ 31
      → read_cover h.content ≡ ok cover
      → all_beams cover.sates_param ≡ true
      → w.pool ≡ true ∷ pool
      → (answer : Bytes) × (w' : World Db) × (dispatch_call p
            (handler env stack)
            (text "AccessToLogic")
            seqid
            (send_access_to_logic p request ++ rest)
            w
          ≡ ok (answer, w', rest))
        × ((more : Bytes) → recv p (text "AccessToLogic") (answer ++ more) ≡ ok (none, more))
        × LoginDone env h w w' cover
  dispatch_call-login request h seqid w cover pool rest head login short e good free =
      let (w', ends, done) = login_ends env h cover w pool e good free in
      let (answer, runs, returns) =
        (rw (dispatch-login env stack h.type h w login ∙ ends) at
            (dispatch_call-request request h seqid w head short))
          rest in
      (answer, w', runs, returns, done)
