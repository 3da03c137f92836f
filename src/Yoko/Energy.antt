-- ===== src/Yoko/Energy.antt =====
-- probes/libenergyyoko/libenergyyoko.c, and what a measurement with it gives.
use lpowerprobe.Common.{
  ◌≡◌, refl, ap, ◌∙◌, false, Option, some, List, if◌then◌else◌, ◌>>=◌, Bool-cases, inl, inr,
}
use lpowerprobe.Text.{Text}
use lpowerprobe.Yoko.Number.{Real}
use lpowerprobe.Yoko.{
  Action, Port, Context, yoko_connect, Ending, read_measurement, is_error, account,
  yoko_read_energy,
}

-- libdata_t.
pub record LibData (W : Type 0) : Type 0 where
  pub ctx : Option (Context W)
  pub e : W

module _ {W : Type 0} ⦃d : Real W⦄ where
  -- `init`: there is a result whether the port is open or not.
  unfoldable pub init : Port → List Action × LibData W
  unfolding yoko_connect
  init port = let (done, ctx) = yoko_connect port in (done, record { ctx = ctx; e = d.nought })

  -- `start`, with what the meter answers; `hour` is 3600.
  unfoldable pub start : W → Text → Ending → LibData W → Option (LibData W)
  unfolding yoko_read_energy
  start hour input ending ldata = do
    (res, ctx) ← yoko_read_energy hour ldata.ctx input ending
    some (record ldata { ctx = ctx })

  unfoldable pub stop : W → Text → Ending → LibData W → Option (LibData W)
  unfolding yoko_read_energy
  stop hour input ending ldata = do
    (res, ctx) ← yoko_read_energy hour ldata.ctx input ending
    some (record { ctx = ctx; e = res })

  read_lem :
      (hour cur : W) (input : Text) (ending : Ending) (ctx c : Context W)
      → read_measurement (some ctx) 1 input ending ≡ some cur
      → yoko_read_energy hour (some c) input ending
        ≡ some ((account hour cur c).0, some (account hour cur c).1)
  unfolding yoko_read_energy read_measurement
  read_lem hour cur input ending ctx c shown =
      let shown' : read_measurement (some c) 1 input ending ≡ some cur = shown in
      rw (yoko_read_energy, shown') refl

  -- What the next reading is counted from.
  last_e-account :
      (hour cur : W) (ctx : Context W)
      → (account hour cur ctx).1.last_e ≡ (if is_error cur then ctx.last_e else d.mul cur hour)
  unfolding account
  last_e-account hour cur ctx = elim (Bool-cases (is_error cur)) [
    | inl bad ↦ rw (account, bad) refl
    | inr good ↦ rw (account, good) refl
  ]

  account_lem :
      (hour cur : W) (ctx : Context W)
      → (account hour cur ctx).0
        ≡ (if is_error cur then d.nought else d.sub (d.mul cur hour) ctx.last_e)
  unfolding account
  account_lem hour cur ctx = elim (Bool-cases (is_error cur)) [
    | inl bad ↦ rw (account, bad) refl
    | inr good ↦ rw (account, good) refl
  ]

  -- A measurement by an open meter that answers at `start` and at `stop`, on every branch: `stop` gives
  -- the difference of the two readings of the energy counter, times 3600; after a reading that is an
  -- error at `start`, it counts from the last reading before; and 0 after one at `stop`.
  pub energy_between :
      (hour cur cur' : W) (input input' : Text) (ending ending' : Ending) (ctx : Context W)
      (ldata : LibData W)
      → ldata.ctx ≡ some ctx
      → read_measurement (some ctx) 1 input ending ≡ some cur
      → read_measurement (some ctx) 1 input' ending' ≡ some cur'
      → (started stopped : LibData W) × (start hour input ending ldata ≡ some started)
        × (stop hour input' ending' started ≡ some stopped)
        × (stopped.e ≡ (
            if is_error cur'
            then d.nought
            else d.sub (d.mul cur' hour) (if is_error cur then ctx.last_e else d.mul cur hour)))
  unfolding start stop
  energy_between hour cur cur' input input' ending ending' ctx ldata opened shown shown' =
      let mid = (account hour cur ctx).1 in
      let after = account hour cur' mid in
      (
        record ldata { ctx = some mid },
        record { ctx = some after.1; e = after.0 },
        rw (opened, read_lem hour cur input ending ctx ctx shown) refl,
        rw (read_lem hour cur' input' ending' ctx mid shown') refl,
        account_lem hour cur' mid
            ∙ ap (λ from. if is_error cur' then d.nought else d.sub (d.mul cur' hour) from)
                (last_e-account hour cur ctx),
      )

-- What IEEE 754 says of the operations when one operand is NaN.
pub record NanLaws {W : Type 0} (d : Real W) : Type 0 where
  pub not_negative : d.negative d.nan ≡ false
  pub unequal : (x : W) → d.equals d.nan x ≡ false
  pub mul_nan : (x : W) → d.mul d.nan x ≡ d.nan
  pub sub_nan : (x : W) → d.sub x d.nan ≡ d.nan

module _ {W : Type 0} ⦃d : Real W⦄ where
  -- Where NaN behaves as IEEE 754 says, a meter that answers NaN at `start` is not taken to be in error,
  -- and spoils the measurement: any reading at `stop` that is no error gives NaN.
  pub nan_spoils :
      (laws : NanLaws d) (hour cur' : W) (input input' : Text) (ending ending' : Ending)
      (ctx : Context W) (ldata : LibData W)
      → ldata.ctx ≡ some ctx
      → read_measurement (some ctx) 1 input ending ≡ some d.nan
      → read_measurement (some ctx) 1 input' ending' ≡ some cur'
      → is_error cur' ≡ false
      → (started stopped : LibData W) × (start hour input ending ldata ≡ some started)
        × (stop hour input' ending' started ≡ some stopped)
        × (stopped.e ≡ d.nan)
  nan_spoils laws hour cur' input input' ending ending' ctx ldata opened shown shown' good =
      let (started, stopped, ran, ran', is) =
        energy_between hour d.nan cur' input input' ending ending' ctx ldata opened shown shown' in
      let no_error : is_error d.nan ≡ false =
        rw (laws.not_negative, laws.unequal d.nan, laws.unequal d.infinity) refl in
      (
        started,
        stopped,
        ran,
        ran',
        is
            ∙ rw (good, no_error)
                (ap (d.sub (d.mul cur' hour)) (laws.mul_nan hour) ∙ laws.sub_nan (d.mul cur' hour)),
      )
