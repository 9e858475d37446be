-- ===== src/Rpc/Server/Effects.antt =====
-- What is read off a list of effects.
use hggutils.Common.{
  ℕ, ◌≡◌, refl, Bool, true, false, ◌||◌, List, [], ◌∷◌, ◌++◌, Option, none, some, arith,
}
use hggutils.Common.Int.{ℤ}
use hggutils.Rpc.Message.{Fault, Value, Response}
use hggutils.Rpc.Server.{
  Effect, write, finish, invoke, register_chan, crash, RpcErrFunc, error_response, rpc_error,
}

abbrev pub responses : List Effect → List Response
responses [] = []
responses (write r ∷ es) = r ∷ responses es
responses (_ ∷ es) = responses es

-- The channels handed to chOut, with the identifiers of their requests.
abbrev pub registered : List Effect → List (Value × ℕ)
registered [] = []
registered (register_chan v i ∷ es) = (v, i) ∷ registered es
registered (_ ∷ es) = registered es

abbrev pub finishes : List Effect → List Bool
finishes [] = []
finishes (finish b ∷ es) = b ∷ finishes es
finishes (_ ∷ es) = finishes es

abbrev pub calls : List Effect → List (List Value)
calls [] = []
calls (invoke _ vs ∷ es) = vs ∷ calls es
calls (_ ∷ es) = calls es

abbrev pub crashes : List Effect → Bool
crashes [] = false
crashes (crash ∷ es) = true
crashes (_ ∷ es) = crashes es

pub responses-append : (es fs : List Effect) → responses (es ++ fs) ≡ responses es ++ responses fs
responses-append [] fs = refl
responses-append (write r ∷ es) fs = rw (responses-append es fs)
responses-append (_ ∷ es) fs = responses-append es fs

pub registered-append :
    (es fs : List Effect) → registered (es ++ fs) ≡ registered es ++ registered fs
registered-append [] fs = refl
registered-append (register_chan v i ∷ es) fs = rw (registered-append es fs)
registered-append (_ ∷ es) fs = registered-append es fs

pub finishes-append : (es fs : List Effect) → finishes (es ++ fs) ≡ finishes es ++ finishes fs
finishes-append [] fs = refl
finishes-append (finish b ∷ es) fs = rw (finishes-append es fs)
finishes-append (_ ∷ es) fs = finishes-append es fs

pub calls-append : (es fs : List Effect) → calls (es ++ fs) ≡ calls es ++ calls fs
calls-append [] fs = refl
calls-append (invoke _ vs ∷ es) fs = rw (calls-append es fs)
calls-append (_ ∷ es) fs = calls-append es fs

pub crashes-append : (es fs : List Effect) → crashes (es ++ fs) ≡ (crashes es || crashes fs)
crashes-append [] fs = refl
crashes-append (crash ∷ es) fs = refl
crashes-append (_ ∷ es) fs = crashes-append es fs

pub ruleset appends =
    (responses-append, registered-append, finishes-append, calls-append, crashes-append)

-- What the handler relies on in the function that reports an error.
pub record IsErrFunc (f : RpcErrFunc) : Type 0 where
  pub silent : (c : ℤ) (m : Fault) → responses (f none c m) ≡ []
  pub answers : (i : ℕ) (c : ℤ) (m : Fault) → responses (f (some i) c m) ≡ error_response i c m ∷ []
  pub no_registration : (id : Option ℕ) (c : ℤ) (m : Fault) → registered (f id c m) ≡ []
  pub no_finish : (id : Option ℕ) (c : ℤ) (m : Fault) → finishes (f id c m) ≡ []
  pub no_call : (id : Option ℕ) (c : ℤ) (m : Fault) → calls (f id c m) ≡ []
  pub no_crash : (id : Option ℕ) (c : ℤ) (m : Fault) → crashes (f id c m) ≡ false

pub rpc_error-IsErrFunc : IsErrFunc rpc_error
unfolding rpc_error
rpc_error-IsErrFunc = record {
  silent = λ c m. refl;
  answers = λ i c m. refl;
  no_registration = λ id c m. ground arith;
  no_finish = λ id c m. ground arith;
  no_call = λ id c m. ground arith;
  no_crash = λ id c m. ground arith;
}
