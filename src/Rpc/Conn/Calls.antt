-- ===== src/Rpc/Conn/Calls.antt =====
-- The calls that a connection handles: wsConn.handling, from handleCall through cancelCtx to done.
use hggutils.Common.{
  ℕ, suc, ◌≡◌, refl, ap, ◌≢◌, Bool, true, false, List, [], ◌∷◌, ◌++◌, Option, some, eqb_iff, length,
  nat_key,
}
use hggutils.Common.Dict.{find, put, find-put_self, find-put_ne, find-delete_self}
use hggutils.Rpc.Message.{Raw, Fault, Result, ok, Value, Request, GoType, parse_error_code}
use hggutils.Rpc.Server.{
  stat, finish, request_error, RpcHandler, ParamDecoder, RpcServer, ChanOut, rpc_error, resolve,
  failed, is_out_chan, decode_params, handle_params, handle_found, handle,
}
use hggutils.Rpc.Server.Effects.{
  finishes, registered, rpc_error-IsErrFunc, registered-append, finishes-append,
}
use hggutils.Rpc.Conn.{
  Frame, Conn, Action, spawn_call, cancel, idle, cancel_ctx, handle_call, handle_frame,
  message_kind, remote_call, cancelling, handle_kind, request_of, call_done,
}

module _ (decode_int64 decode_uint64 : Raw → Result ℕ) where
  handle_call-some :
      (c : Conn) (f : Frame) (i : ℕ)
      → c.has_handler ≡ true
      → f.id ≡ some i
      → handle_call decode_int64 decode_uint64 c f
        ≡ some (
          record c { next_ctx = suc c.next_ctx; handling = put i c.next_ctx c.handling },
          spawn_call c.next_ctx (request_of f) ∷ [],
        )
  unfolding handle_call
  handle_call-some c f i h e = rw (h, e, handle_call)

  -- A cancellation reaches the call that it names. After a remote call with an identifier, on a
  -- connection with a handler, the connection cancels the context of just that call when its peer
  -- asks for it with a parameter that decodes to the identifier, leaves every other call's context
  -- as it was, and once the call is done without a channel, a further cancellation does nothing.
  pub call-cancel :
      (c : Conn) (f g : Frame) (i j : ℕ) (p : Raw) (rest : List Raw)
      → c.has_handler ≡ true
      → message_kind f.method ≡ remote_call
      → f.id ≡ some i
      → message_kind g.method ≡ cancelling
      → g.params ≡ p ∷ rest
      → decode_int64 p ≡ ok i
      → i ≢ j
      → (d : Conn) × (handle_frame decode_int64 decode_uint64 c f
          ≡ some (d, spawn_call c.next_ctx (request_of f) ∷ []))
        × (handle_frame decode_int64 decode_uint64 d g ≡ some (d, cancel c.next_ctx ∷ []))
        × (find j d.handling ≡ find j c.handling)
        × ((call_done d c.next_ctx (some i) false).1 ≡ cancel c.next_ctx ∷ [])
        × (handle_frame decode_int64 decode_uint64 (call_done d c.next_ctx (some i) false).0 g
            ≡ idle (call_done d c.next_ctx (some i) false).0)
  unfolding handle_frame handle_kind cancel_ctx call_done
  call-cancel c f g i j p rest h call e k ps dec ne = (
    record c { next_ctx = suc c.next_ctx; handling = put i c.next_ctx c.handling },
    rw (call, handle_kind) (handle_call-some c f i h e),
    rw (k, handle_kind, ps, cancel_ctx, dec, find-put_self i c.next_ctx c.handling),
    find-put_ne i j c.next_ctx c.handling ne,
    refl,
    rw (k, handle_kind, ps, cancel_ctx, dec, find-delete_self i (put i c.next_ctx c.handling)),
  )

-- done is called for each finish of the call that runs under the context.
unfoldable pub end_call : Conn → ℕ → Option ℕ → List Bool → Conn × List Action
end_call c ctx id [] = (c, [])
end_call c ctx id (keep ∷ keeps) =
    let (c', acts) = call_done c ctx id keep in
    let (c'', more) = end_call c' ctx id keeps in (c'', acts ++ more)

module _ (decode_value : GoType → ParamDecoder) (s : RpcServer) (ctx : Value) (req : Request)
    (h : RpcHandler) (reg : ChanOut) (fault : Fault) where
  handle_undecoded :
      resolve s req.method ≡ some h
      → length req.params ≡ h.n_params
      → is_out_chan h ≡ true
      → decode_params decode_value s h.n_params req.method 0 h.param_receivers req.params
        ≡ failed fault
      → handle decode_value s ctx req rpc_error (some reg)
        ≡ (rpc_error req.id parse_error_code fault ++ stat request_error ∷ []) ++ finish true ∷ []
  unfolding handle handle_found handle_params
  handle_undecoded r n o d =
      rw (r, handle, (eqb_iff (length req.params) h.n_params).1 n, handle_found, d, handle_params)
        (ap
          (λ b.
            (rpc_error req.id parse_error_code fault ++ stat request_error ∷ []) ++ finish b ∷ [])
          o)

-- A call with a channel result whose parameters do not decode leaves its context behind: on a
-- connection that has an entry for it, the method being there and the number of its parameters
-- right, it answers with an error and registers no channel, yet done cancels nothing and the entry
-- of the call stays.
pub failed_call_keeps :
    (decode_value : GoType → ParamDecoder) (s : RpcServer) (ctx : Value) (req : Request)
    (h : RpcHandler) (reg : ChanOut) (fault : Fault) (c : Conn) (i context : ℕ)
    → resolve s req.method ≡ some h
    → length req.params ≡ h.n_params
    → is_out_chan h ≡ true
    → decode_params decode_value s h.n_params req.method 0 h.param_receivers req.params
      ≡ failed fault
    → find i c.handling ≡ some context
    → let es = handle decode_value s ctx req rpc_error (some reg) in
      (registered es ≡ [])
      × (find i (end_call c context (some i) (finishes es)).0.handling ≡ some context)
      × ((end_call c context (some i) (finishes es)).1 ≡ [])
unfolding end_call call_done
failed_call_keeps decode_value s ctx req h reg fault c i context r n o d e =
    let laws = rpc_error-IsErrFunc in
    rw
      (
        handle_undecoded decode_value s ctx req h reg fault r n o d,
        registered-append,
        registered-append,
        laws.no_registration req.id parse_error_code fault,
        finishes-append,
        finishes-append,
        laws.no_finish req.id parse_error_code fault,
      )
      (refl, e, refl)
