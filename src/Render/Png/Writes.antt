-- ===== src/Render/Png/Writes.antt =====
-- What the callback of `Sink` (src/rust/render/lib.rs) sees.
use lightpanda_browser.Prelude.{
  true, false, Bool-cases, [], ◌∷◌, ◌++◌, Bytes, All, inl, inr, ◌⊎◌, ◌≡◌, refl,
}
use lightpanda_browser.Render.Png.{
  Calls, Write, Sink, sink_write, Encoding, ended, broken_off, writes, run_encoding,
}

abbrev pub AllAccepted : Calls → Type 0
AllAccepted calls = All (λ c. c.1 ≡ true) calls

-- The last call was refused, and it alone.
pub record RefusedLast (calls : Calls) : Type 0 where
  pub before : Calls
  pub buf : Bytes
  pub split : calls ≡ before ++ (buf, false) ∷ []
  pub accepted : AllAccepted before

-- A sink has failed exactly if a call was refused, and then there was no further call.
abbrev pub IsPolite : Sink → Type 0
IsPolite s = ((s.failed ≡ false) × AllAccepted s.calls) ⊎ ((s.failed ≡ true) × RefusedLast s.calls)

AllAccepted-push :
    (calls : Calls) (buf : Bytes) → AllAccepted calls → AllAccepted (calls ++ (buf, true) ∷ [])
AllAccepted-push [] buf all = (refl, tt)
AllAccepted-push (c ∷ calls) buf all = (all.0, AllAccepted-push calls buf all.1)

sink_write-IsPolite :
    (write : Write) (buf : Bytes) (s : Sink) → IsPolite s → IsPolite (sink_write write buf s).0
unfolding sink_write
sink_write-IsPolite write buf s (inr (failed, refused)) =
    rw (failed, sink_write) (inr (refl, refused))
sink_write-IsPolite write buf s (inl (fine, all)) = elim (Bool-cases (write s.calls buf)) [
  | inl accepted ↦ rw (fine, accepted, sink_write) (inl (refl, AllAccepted-push s.calls buf all))
  | inr refused ↦
      rw (fine, refused, sink_write)
        (inr (refl, record { before = s.calls; buf = buf; split = refl; accepted = all }))
]

pub run_encoding-IsPolite :
    (write : Write) (e : Encoding) (s : Sink) → IsPolite s → IsPolite (run_encoding write e s).0
unfolding run_encoding
run_encoding-IsPolite write (ended ok) s polite = polite
run_encoding-IsPolite write broken_off s polite = polite
run_encoding-IsPolite write (writes buf next) s polite =
    run_encoding-IsPolite write (next (sink_write write buf s).1) (sink_write write buf s).0
      (sink_write-IsPolite write buf s polite)
