-- ===== src/Startup/Failures.antt =====
-- Every failure that leaves a call is an error of the API's form.
use integr8s_code.Base.{◌≡◌, true, false}
use integr8s_code.Errors.{ErrorResponse, error_interceptor}
use integr8s_code.Client.Configuration.{Config, spread}
use integr8s_code.Client.Request.{RequestOptions, World, Tried}
use integr8s_code.Client.Request.Sending.{is_true}
use integr8s_code.Startup.{Browser, status_of}

module _ (w : World) (b : Browser w) where
  abbrev pub IsFaithful : Type 0
  IsFaithful = (f : ErrorResponse) → (b.as_error (b.value f) ≡ f) × (w.is_falsy (b.value f) ≡ false)

  -- The failure of a call's run, as the interceptor names it.
  abbrev pub named : Tried w → w.E → ErrorResponse
  named t e = (error_interceptor (b.problem e) (status_of w b t.response)).0

  -- A call that is asked to throw.
  abbrev pub Throws : Config w.E w.D → RequestOptions w.E w.D → Type 0
  Throws config o = is_true (spread config o.settings).throw_on_error ≡ true
