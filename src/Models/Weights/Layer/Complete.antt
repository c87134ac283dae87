-- ===== src/Models/Weights/Layer/Complete.antt =====
-- src/models/qwen3_weights.cc: what a layer that load_layer gives holds.
use vicold_hybrid_ai.Base.{
  ℕ, ℤ, pos, ◌<◌, ◌≡◌, refl, sym, ap, subst, ◌∙◌, Bool, true, false, not, List, length, get_elem?,
  ltb, ◌==◌, ==_iff, codes, if◌then◌else◌, arith,
}
use vicold_hybrid_ai.Core.{
  Result, ok, invalid_argument, invalid_model, Device, ◌>>=◌, Ensures, Ensures-bind,
  Ensures-require, Ensures-then, Ensures-path,
}
use vicold_hybrid_ai.Models.Config.{Qwen3Config}
use vicold_hybrid_ai.Models.Names.{layer_name}
use vicold_hybrid_ai.Models.Quantized.{Tensor, QuantizedWeight}
use vicold_hybrid_ai.Models.Weights.{
  TensorSource, Qwen3LayerWeights, no_layer, validate_layer, load_quantized,
}
use vicold_hybrid_ai.Models.Weights.Loaded.{
  IsTensor, IsPlaced, load_tensor-IsTensor, load_quantized-IsPlaced,
}
use vicold_hybrid_ai.Models.Weights.Layer.{
  is_full, same_bool, load_layer_tensor, with_attention, with_linear, with_mlp, has_attention,
  has_linear, load_layer,
}

-- A tensor of a layer has a name that its suffix gives.
module _ (loader : TensorSource) (device : Device) (name_of : List ℕ → List ℕ) where
  -- A layer's index, kind and norms.
  abbrev pub HasNorms : ℤ → Bool → Qwen3LayerWeights → Type 0
  HasNorms layer_index is_attention w =
      (w.layer_index ≡ layer_index)
      × (w.is_attention_layer ≡ is_attention)
      × IsTensor loader device (name_of (codes "input_layernorm.weight")) w.input_layernorm
      × IsTensor loader device (name_of (codes "post_attention_layernorm.weight"))
          w.post_attention_layernorm

  -- The weights of a layer of full attention, or else of one of linear attention.
  abbrev pub HasKind : Bool → Qwen3LayerWeights → Type 0
  HasKind true w =
      IsPlaced loader device (name_of (codes "self_attn.q_proj.weight")) w.q_proj
      × IsPlaced loader device (name_of (codes "self_attn.k_proj.weight")) w.k_proj
      × IsPlaced loader device (name_of (codes "self_attn.v_proj.weight")) w.v_proj
      × IsPlaced loader device (name_of (codes "self_attn.o_proj.weight")) w.o_proj
      × IsTensor loader device (name_of (codes "self_attn.q_norm.weight")) w.q_norm
      × IsTensor loader device (name_of (codes "self_attn.k_norm.weight")) w.k_norm
  HasKind false w =
      IsTensor loader device (name_of (codes "linear_attn.norm.weight")) w.linear_attn_norm
      × IsTensor loader device (name_of (codes "linear_attn.A_log")) w.a_log
      × IsTensor loader device (name_of (codes "linear_attn.conv1d.weight")) w.conv1d_weight
      × IsTensor loader device (name_of (codes "linear_attn.dt_bias")) w.dt_bias
      × IsTensor loader device (name_of (codes "linear_attn.in_proj_a.weight")) w.in_proj_a
      × IsTensor loader device (name_of (codes "linear_attn.in_proj_b.weight")) w.in_proj_b
      × IsPlaced loader device (name_of (codes "linear_attn.in_proj_qkv.weight")) w.in_proj_qkv
      × IsPlaced loader device (name_of (codes "linear_attn.in_proj_z.weight")) w.in_proj_z
      × IsPlaced loader device (name_of (codes "linear_attn.out_proj.weight")) w.linear_out_proj

  abbrev pub HasMlp : Qwen3LayerWeights → Type 0
  HasMlp w =
      IsPlaced loader device (name_of (codes "mlp.gate_proj.weight")) w.mlp_gate_proj
      × IsPlaced loader device (name_of (codes "mlp.up_proj.weight")) w.mlp_up_proj
      × IsPlaced loader device (name_of (codes "mlp.down_proj.weight")) w.mlp_down_proj

HasKind-mlp :
    (loader : TensorSource) (device : Device) (name_of : List ℕ → List ℕ) (b : Bool)
    (w : Qwen3LayerWeights) (gate up down : QuantizedWeight)
    → HasKind loader device name_of b w
    → HasKind loader device name_of b
        (record w { mlp_gate_proj = gate; mlp_up_proj = up; mlp_down_proj = down })
HasKind-mlp loader device name_of true w gate up down kind = kind
HasKind-mlp loader device name_of false w gate up down kind = kind

module _ (loader : TensorSource) (layer_index : ℕ) (device : Device) where
  quantized :
      {B : Type 0} (P : B → Type 0) (suffix : List ℕ) (f : QuantizedWeight → Result B)
      → ((w : QuantizedWeight)
          → IsPlaced loader device (layer_name layer_index suffix) w
          → Ensures P (f w))
      → Ensures P (load_quantized loader (layer_name layer_index suffix) device >>= f)
  quantized P suffix f =
      Ensures-then (IsPlaced loader device (layer_name layer_index suffix)) P
        (load_quantized loader (layer_name layer_index suffix) device) f
        (load_quantized-IsPlaced loader device (layer_name layer_index suffix))

  plain :
      {B : Type 0} (P : B → Type 0) (suffix : List ℕ) (f : Tensor → Result B)
      → ((t : Tensor) → IsTensor loader device (layer_name layer_index suffix) t → Ensures P (f t))
      → Ensures P (load_layer_tensor loader layer_index device suffix >>= f)
  plain P suffix f =
      Ensures-then (IsTensor loader device (layer_name layer_index suffix)) P
        (load_layer_tensor loader layer_index device suffix) f
        (load_tensor-IsTensor loader device (layer_name layer_index suffix))

  with_attention-HasKind :
      (w : Qwen3LayerWeights)
      → HasNorms loader device (layer_name layer_index) (pos layer_index) true w
      → Ensures
          (λ w'.
            HasNorms loader device (layer_name layer_index) (pos layer_index) true w'
            × HasKind loader device (layer_name layer_index) true w')
          (with_attention loader layer_index device w)
  unfolding with_attention
  with_attention-HasKind w norms =
      let P : Qwen3LayerWeights → Type 0 = λ w'.
        HasNorms loader device (layer_name layer_index) (pos layer_index) true w'
        × HasKind loader device (layer_name layer_index) true w' in
      quantized P (codes "self_attn.q_proj.weight") _ λ q_proj q.
        quantized P (codes "self_attn.k_proj.weight") _ λ k_proj k.
          quantized P (codes "self_attn.v_proj.weight") _ λ v_proj v.
            quantized P (codes "self_attn.o_proj.weight") _ λ o_proj o.
              plain P (codes "self_attn.q_norm.weight") _ λ q_norm qn.
                plain P (codes "self_attn.k_norm.weight") _
                  λ k_norm kn. (norms, (q, k, v, o, qn, kn))

  with_linear-HasKind :
      (w : Qwen3LayerWeights)
      → HasNorms loader device (layer_name layer_index) (pos layer_index) false w
      → Ensures
          (λ w'.
            HasNorms loader device (layer_name layer_index) (pos layer_index) false w'
            × HasKind loader device (layer_name layer_index) false w')
          (with_linear loader layer_index device w)
  unfolding with_linear
  with_linear-HasKind w norms =
      let P : Qwen3LayerWeights → Type 0 = λ w'.
        HasNorms loader device (layer_name layer_index) (pos layer_index) false w'
        × HasKind loader device (layer_name layer_index) false w' in
      plain P (codes "linear_attn.norm.weight") _ λ linear_attn_norm n.
        plain P (codes "linear_attn.A_log") _ λ a_log l.
          plain P (codes "linear_attn.conv1d.weight") _ λ conv1d_weight c.
            plain P (codes "linear_attn.dt_bias") _ λ dt_bias d.
              plain P (codes "linear_attn.in_proj_a.weight") _ λ in_proj_a a.
                plain P (codes "linear_attn.in_proj_b.weight") _ λ in_proj_b b.
                  quantized P (codes "linear_attn.in_proj_qkv.weight") _ λ in_proj_qkv q.
                    quantized P (codes "linear_attn.in_proj_z.weight") _ λ in_proj_z z.
                      quantized P (codes "linear_attn.out_proj.weight") _
                        λ linear_out_proj o. (norms, (n, l, c, d, a, b, q, z, o))

  -- The attention of a layer is one of two kinds, and with_mlp leaves it.
  with_kind-HasKind :
      (b : Bool) (w : Qwen3LayerWeights)
      → HasNorms loader device (layer_name layer_index) (pos layer_index) b w
      → Ensures
          (λ w'.
            HasNorms loader device (layer_name layer_index) (pos layer_index) b w'
            × HasKind loader device (layer_name layer_index) b w')
          (if b
            then with_attention loader layer_index device w
            else with_linear loader layer_index device w)
  with_kind-HasKind true w norms = with_attention-HasKind w norms
  with_kind-HasKind false w norms = with_linear-HasKind w norms

  with_mlp-HasMlp :
      (b : Bool) (w : Qwen3LayerWeights)
      → HasNorms loader device (layer_name layer_index) (pos layer_index) b w
      → HasKind loader device (layer_name layer_index) b w
      → Ensures
          (λ w'.
            HasNorms loader device (layer_name layer_index) (pos layer_index) b w'
            × HasKind loader device (layer_name layer_index) b w'
            × HasMlp loader device (layer_name layer_index) w')
          (with_mlp loader layer_index device w)
  unfolding with_mlp
  with_mlp-HasMlp b w norms kind =
      let P : Qwen3LayerWeights → Type 0 = λ w'.
        HasNorms loader device (layer_name layer_index) (pos layer_index) b w'
        × HasKind loader device (layer_name layer_index) b w'
        × HasMlp loader device (layer_name layer_index) w' in
      quantized P (codes "mlp.gate_proj.weight") _ λ mlp_gate_proj g.
        quantized P (codes "mlp.up_proj.weight") _ λ mlp_up_proj u.
          quantized P (codes "mlp.down_proj.weight") _ λ mlp_down_proj d. (
            norms,
            HasKind-mlp loader device (layer_name layer_index) b w mlp_gate_proj mlp_up_proj
                mlp_down_proj kind,
            (g, u, d),
          )

-- A layer as load_layer is to give it: of the kind that the configuration and the checkpoint both say,
-- checked, and with all of its tensors in the memory of the device, but for the scales of its weights.
pub record IsLayer (loader : TensorSource) (config : Qwen3Config) (layer_index : ℕ)
    (device : Device) (w : Qwen3LayerWeights) : Type 0 where
  pub in_range : layer_index < config.num_hidden_layers
  pub scheduled : length config.layer_types ≡ config.num_hidden_layers
  pub kind : is_full (get_elem? config.layer_types layer_index) ≡ w.is_attention_layer
  pub attention : has_attention loader layer_index device ≡ w.is_attention_layer
  pub linear : has_linear loader layer_index device ≡ not w.is_attention_layer
  pub norms :
      HasNorms loader device (layer_name layer_index) (pos layer_index) w.is_attention_layer w
  pub projections : HasKind loader device (layer_name layer_index) w.is_attention_layer w
  pub mlp : HasMlp loader device (layer_name layer_index) w
  pub valid : validate_layer w ≡ ok tt

same_bool-path : (a b : Bool) → same_bool a b ≡ true → a ≡ b
same_bool-path true true h = refl
same_bool-path true false h = absurd (cc)
same_bool-path false true h = absurd (cc)
same_bool-path false false h = refl

other_bool-path : (a b : Bool) → not (same_bool a b) ≡ true → b ≡ not a
other_bool-path true true h = absurd (cc)
other_bool-path true false h = refl
other_bool-path false true h = refl
other_bool-path false false h = absurd (cc)

-- A layer that load_layer gives is of the kind that both the configuration and the checkpoint say, has
-- passed its checks, and has all of the tensors of its kind, each one read from the tensor of its name
-- into the memory of the device that was asked for (host memory for a CPU); the scales of a weight, if
-- it has any, are read from the tensor of their name and stay in host memory.
pub load_layer-IsLayer :
    (loader : TensorSource) (config : Qwen3Config) (layer_index : ℕ) (device : Device)
    (w : Qwen3LayerWeights)
    → load_layer loader layer_index device config ≡ ok w
    → IsLayer loader config layer_index device w
unfolding load_layer
load_layer-IsLayer loader config layer_index device w h =
    let P = IsLayer loader config layer_index device in
    let is_attention = is_full (get_elem? config.layer_types layer_index) in
    Ensures-path P (load_layer loader layer_index device config) w
      (Ensures-require P (ltb layer_index config.num_hidden_layers) invalid_argument _ λ below.
        Ensures-require P (length config.layer_types == config.num_hidden_layers) invalid_model _
          λ scheduled.
            plain loader layer_index device P (codes "input_layernorm.weight") _
              λ input_layernorm i.
                plain loader layer_index device P (codes "post_attention_layernorm.weight") _
                  λ post_attention_layernorm p.
                    Ensures-require P
                      (not (
                        same_bool (has_attention loader layer_index device)
                          (has_linear loader layer_index device)))
                      invalid_model _
                      λ apart.
                        Ensures-require P
                          (same_bool is_attention (has_attention loader layer_index device))
                          invalid_model _
                          λ expected.
                            let base : Qwen3LayerWeights = record no_layer {
                              layer_index = pos layer_index;
                              is_attention_layer = is_attention;
                              input_layernorm = input_layernorm;
                              post_attention_layernorm = post_attention_layernorm;
                            } in
                            Ensures-then
                              (λ w'.
                                HasNorms loader device (layer_name layer_index) (pos layer_index)
                                  is_attention w'
                                × HasKind loader device (layer_name layer_index) is_attention w')
                              P
                              (if is_attention
                                then with_attention loader layer_index device base
                                else with_linear loader layer_index device base)
                              _
                              (with_kind-HasKind loader layer_index device is_attention base
                                (refl, refl, i, p))
                              λ projected (norms, kind).
                                Ensures-then
                                  (λ w'.
                                    HasNorms loader device (layer_name layer_index)
                                      (pos layer_index) is_attention w'
                                    × HasKind loader device (layer_name layer_index) is_attention w'
                                    × HasMlp loader device (layer_name layer_index) w')
                                  P (with_mlp loader layer_index device projected) _
                                  (with_mlp-HasMlp loader layer_index device is_attention projected
                                    norms kind)
                                  λ whole (norms', kind', mlp).
                                    Ensures-bind P (validate_layer whole) _ λ _ valid.
                                      let flag = norms'.1 in
                                      let has =
                                        same_bool-path is_attention
                                          (has_attention loader layer_index device) expected in
                                      record {
                                        in_range = ground arith;
                                        scheduled =
                                            (==_iff (length config.layer_types)
                                                config.num_hidden_layers).0
                                              scheduled;
                                        kind = sym flag;
                                        attention = sym has ∙ sym flag;
                                        linear =
                                            other_bool-path
                                              (has_attention loader layer_index device)
                                              (has_linear loader layer_index device) apart
                                            ∙ ap not (sym has ∙ sym flag);
                                        norms = (norms'.0, refl, norms'.2, norms'.3);
                                        projections =
                                            subst
                                              (λ b.
                                                HasKind loader device (layer_name layer_index) b
                                                  whole)
                                              (sym flag) kind';
                                        mlp = mlp;
                                        valid = valid;
                                      })
      h
