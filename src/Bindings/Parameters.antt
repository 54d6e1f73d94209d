-- ===== src/Bindings/Parameters.antt =====
-- `CountParameters` of vxodbc/bind.cc: the parameters of a statement by direction. Each counter is
-- asked for or NULL.
use Prim.Native.Nat.{min}
use versaplex.Prelude.{
  refl, ℕ, zero, suc, ◌+◌, ltb, if◌then◌else◌, Bool, true, false, List, [], ◌∷◌, length, ◌≡◌, arith,
  ◌≤◌,
}

pub data ParamType : Type 0 where
  sql_param_input sql_param_output sql_param_input_output : ParamType

pub record Counts : Type 0 where
  pub input_count : ℕ
  pub io_count : ℕ
  pub output_count : ℕ
  pub valid_count : ℕ

unfoldable pub count_one : Bool → Bool → Bool → ParamType → Counts → Counts
count_one inputs ios outputs sql_param_output c =
    if outputs
    then record c { output_count = c.output_count + 1; valid_count = c.valid_count + 1 }
    else c
count_one inputs ios outputs sql_param_input_output c =
    if ios then record c { io_count = c.io_count + 1; valid_count = c.valid_count + 1 } else c
count_one inputs ios outputs sql_param_input c =
    if inputs
    then record c { input_count = c.input_count + 1; valid_count = c.valid_count + 1 }
    else c

unfoldable pub count_params : Bool → Bool → Bool → ℕ → List ParamType → Counts → Counts
unfolding count_one
count_params inputs ios outputs zero ps c = c
count_params inputs ios outputs (suc n) [] c = c
count_params inputs ios outputs (suc n) (p ∷ ps) c =
    count_params inputs ios outputs n ps (count_one inputs ios outputs p c)

-- The parameters allocated are the whole list.
unfoldable pub count_parameters : Bool → Bool → Bool → ℕ → List ParamType → Counts
unfolding count_params
count_parameters inputs ios outputs num_params ps =
    count_params inputs ios outputs (if ltb (length ps) num_params then length ps else num_params)
      ps (record { input_count = 0; io_count = 0; output_count = 0; valid_count = 0 })

abbrev pub total : Counts → ℕ
total c = c.input_count + c.io_count + c.output_count

count_one-total :
    (inputs ios outputs : Bool) (p : ParamType) (c : Counts)
    → c.valid_count ≡ total c
    → (count_one inputs ios outputs p c).valid_count ≡ total (count_one inputs ios outputs p c)
unfolding count_one
count_one-total inputs ios true sql_param_output c h = omega arith
count_one-total inputs ios false sql_param_output c h = h
count_one-total inputs true outputs sql_param_input_output c h = omega arith
count_one-total inputs false outputs sql_param_input_output c h = h
count_one-total true ios outputs sql_param_input c h = omega arith
count_one-total false ios outputs sql_param_input c h = h

count_params-total :
    (inputs ios outputs : Bool) (n : ℕ) (ps : List ParamType) (c : Counts)
    → c.valid_count ≡ total c
    → (count_params inputs ios outputs n ps c).valid_count
      ≡ total (count_params inputs ios outputs n ps c)
unfolding count_params
count_params-total inputs ios outputs zero ps c h = h
count_params-total inputs ios outputs (suc n) [] c h = h
count_params-total inputs ios outputs (suc n) (p ∷ ps) c h =
    count_params-total inputs ios outputs n ps (count_one inputs ios outputs p c)
      (count_one-total inputs ios outputs p c h)

count_one_all :
    (p : ParamType) (c : Counts) → (count_one true true true p c).valid_count ≡ c.valid_count + 1
unfolding count_one
count_one_all sql_param_output c = refl
count_one_all sql_param_input_output c = refl
count_one_all sql_param_input c = refl

count_params_all :
    (n : ℕ) (ps : List ParamType) (c : Counts)
    → n ≤ length ps
    → (count_params true true true n ps c).valid_count ≡ c.valid_count + n
unfolding count_params
count_params_all zero ps c h = omega arith
count_params_all (suc n) [] c h = absurd (omega arith)
count_params_all (suc n) (p ∷ ps) c h =
    omega
      (arith, count_params_all n ps (count_one true true true p c) (omega arith), count_one_all p c)

-- The result is the sum of the counters, and with all three asked for it is the number of the
-- parameters, or of those that are allocated if they are fewer.
pub count_parameters-total :
    (inputs ios outputs : Bool) (num_params : ℕ) (ps : List ParamType)
    → ((count_parameters inputs ios outputs num_params ps).valid_count
        ≡ total (count_parameters inputs ios outputs num_params ps))
      × ((count_parameters true true true num_params ps).valid_count ≡ min num_params (length ps))
unfolding count_parameters
count_parameters-total inputs ios outputs num_params ps =
    let n = if ltb (length ps) num_params then length ps else num_params in
    let start : Counts = record {
      input_count = 0;
      io_count = 0;
      output_count = 0;
      valid_count = 0;
    } in
    let least : n ≡ min num_params (length ps) = ground arith in
    let inside : n ≤ length ps = omega (arith, least) in
    (
      count_params-total inputs ios outputs n ps start refl,
      omega (arith, count_params_all n ps start inside, least),
    )
