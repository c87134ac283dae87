-- ===== src/Models/Weights/Layer.antt =====
-- src/models/qwen3_weights.cc: load_layer.
pub mod Complete
use vicold_hybrid_ai.Base.{
  ℕ, pos, ◌≡◌, refl, Bool, true, false, ◌||◌, ◌&&◌, not, Option, none, some, List, [], ◌∷◌, length,
  get_elem?, ltb, ◌==◌, codes, if◌then◌else◌,
}
use vicold_hybrid_ai.Core.{
  Result, ok, err, invalid_argument, invalid_model, Device, ◌>>=◌, ◌>>◌, require,
}
use vicold_hybrid_ai.Models.Config.{Qwen3Config, Qwen3LayerType, linear_attention, full_attention}
use vicold_hybrid_ai.Models.Names.{layer_name}
use vicold_hybrid_ai.Models.Quantized.{Tensor}
use vicold_hybrid_ai.Models.Weights.{
  TensorSource, Qwen3LayerWeights, no_layer, validate_layer, has, load_tensor, load_quantized,
}

abbrev pub is_full : Option Qwen3LayerType → Bool
is_full (some full_attention) = true
is_full _ = false

abbrev pub same_bool : Bool → Bool → Bool
same_bool true b = b
same_bool false b = not b

module _ (loader : TensorSource) (layer_index : ℕ) (device : Device) where
  abbrev pub load_layer_tensor : List ℕ → Result Tensor
  load_layer_tensor suffix = load_tensor loader (layer_name layer_index suffix) device

  unfoldable pub with_attention : Qwen3LayerWeights → Result Qwen3LayerWeights
  with_attention w = do
    q_proj ← load_quantized loader (layer_name layer_index (codes "self_attn.q_proj.weight")) device
    k_proj ← load_quantized loader (layer_name layer_index (codes "self_attn.k_proj.weight")) device
    v_proj ← load_quantized loader (layer_name layer_index (codes "self_attn.v_proj.weight")) device
    o_proj ← load_quantized loader (layer_name layer_index (codes "self_attn.o_proj.weight")) device
    q_norm ← load_layer_tensor (codes "self_attn.q_norm.weight")
    k_norm ← load_layer_tensor (codes "self_attn.k_norm.weight")
    ok (record w {
      q_proj = q_proj;
      k_proj = k_proj;
      v_proj = v_proj;
      o_proj = o_proj;
      q_norm = q_norm;
      k_norm = k_norm;
    })

  unfoldable pub with_linear : Qwen3LayerWeights → Result Qwen3LayerWeights
  with_linear w = do
    linear_attn_norm ← load_layer_tensor (codes "linear_attn.norm.weight")
    a_log ← load_layer_tensor (codes "linear_attn.A_log")
    conv1d_weight ← load_layer_tensor (codes "linear_attn.conv1d.weight")
    dt_bias ← load_layer_tensor (codes "linear_attn.dt_bias")
    in_proj_a ← load_layer_tensor (codes "linear_attn.in_proj_a.weight")
    in_proj_b ← load_layer_tensor (codes "linear_attn.in_proj_b.weight")
    in_proj_qkv ←
        load_quantized loader (layer_name layer_index (codes "linear_attn.in_proj_qkv.weight"))
          device
    in_proj_z ←
        load_quantized loader (layer_name layer_index (codes "linear_attn.in_proj_z.weight")) device
    linear_out_proj ←
        load_quantized loader (layer_name layer_index (codes "linear_attn.out_proj.weight")) device
    ok (record w {
      linear_attn_norm = linear_attn_norm;
      a_log = a_log;
      conv1d_weight = conv1d_weight;
      dt_bias = dt_bias;
      in_proj_a = in_proj_a;
      in_proj_b = in_proj_b;
      in_proj_qkv = in_proj_qkv;
      in_proj_z = in_proj_z;
      linear_out_proj = linear_out_proj;
    })

  unfoldable pub with_mlp : Qwen3LayerWeights → Result Qwen3LayerWeights
  with_mlp w = do
    mlp_gate_proj ←
        load_quantized loader (layer_name layer_index (codes "mlp.gate_proj.weight")) device
    mlp_up_proj ← load_quantized loader (layer_name layer_index (codes "mlp.up_proj.weight")) device
    mlp_down_proj ←
        load_quantized loader (layer_name layer_index (codes "mlp.down_proj.weight")) device
    ok (record w {
      mlp_gate_proj = mlp_gate_proj;
      mlp_up_proj = mlp_up_proj;
      mlp_down_proj = mlp_down_proj;
    })

  abbrev pub has_attention : Bool
  has_attention = has loader (layer_name layer_index (codes "self_attn.q_proj.weight"))

  abbrev pub has_linear : Bool
  has_linear = has loader (layer_name layer_index (codes "linear_attn.in_proj_qkv.weight"))

  unfoldable pub load_layer : Qwen3Config → Result Qwen3LayerWeights
  unfolding with_attention with_linear with_mlp
  load_layer config = do
    require (ltb layer_index config.num_hidden_layers) invalid_argument
    require (length config.layer_types == config.num_hidden_layers) invalid_model
    input_layernorm ← load_layer_tensor (codes "input_layernorm.weight")
    post_attention_layernorm ← load_layer_tensor (codes "post_attention_layernorm.weight")
    require (not (same_bool has_attention has_linear)) invalid_model
    let is_attention_layer = is_full (get_elem? config.layer_types layer_index)
    require (same_bool is_attention_layer has_attention) invalid_model
    let w : Qwen3LayerWeights = record no_layer {
      layer_index = pos layer_index;
      is_attention_layer = is_attention_layer;
      input_layernorm = input_layernorm;
      post_attention_layernorm = post_attention_layernorm;
    }
    projected ← if is_attention_layer then with_attention w else with_linear w
    whole ← with_mlp projected
    validate_layer whole
    ok whole
