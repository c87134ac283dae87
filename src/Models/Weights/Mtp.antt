-- ===== src/Models/Weights/Mtp.antt =====
-- src/models/qwen3_weights.cc: the weights of multi-token prediction, load_mtp and their checks.
pub mod Complete
use vicold_hybrid_ai.Base.{
  ℕ, zero, suc, pos, ◌*◌, ◌≡◌, Bool, true, false, ◌&&◌, not, List, [], ◌∷◌, ◌++◌, length, get_or,
  ◌==◌, same_text, is_empty, codes, decimal,
}
use vicold_hybrid_ai.Core.{
  Result, ok, err, invalid_argument, invalid_model, Device, ◌>>=◌, ◌>>◌, require,
}
use vicold_hybrid_ai.Models.Config.{Qwen3Config}
use vicold_hybrid_ai.Models.Quantized.{Tensor}
use vicold_hybrid_ai.Models.Weights.{
  TensorSource, Qwen3LayerWeights, no_layer, validate_layer, load_tensor, load_quantized,
}

pub record Qwen3MtpWeights : Type 0 where
  pub fc : Tensor
  pub norm : Tensor
  pub pre_fc_norm_embedding : Tensor
  pub pre_fc_norm_hidden : Tensor
  pub layers : List Qwen3LayerWeights

-- The projection takes two hidden states to one.
abbrev pub fits_norms : Qwen3MtpWeights → Bool
fits_norms w =
    (length w.fc.shape == 2)
    && (length w.norm.shape == 1)
    && (length w.pre_fc_norm_embedding.shape == 1)
    && (length w.pre_fc_norm_hidden.shape == 1)
    && same_text w.norm.shape w.pre_fc_norm_embedding.shape
    && same_text w.norm.shape w.pre_fc_norm_hidden.shape
    && (get_or w.fc.shape 1 0 == get_or w.norm.shape 0 0 * 2)
    && (get_or w.fc.shape 0 0 == get_or w.norm.shape 0 0)

unfoldable pub validate_layers : List Qwen3LayerWeights → Result (Unit {0})
validate_layers [] = ok tt
validate_layers (layer ∷ layers) = do
  require (layer.q_norm.has_buffer && layer.k_norm.has_buffer) invalid_model
  validate_layer layer
  validate_layers layers

unfoldable pub validate_mtp : Qwen3MtpWeights → Result (Unit {0})
unfolding validate_layers
validate_mtp w = do
  require
      (w.fc.has_buffer && w.norm.has_buffer && w.pre_fc_norm_embedding.has_buffer
        && w.pre_fc_norm_hidden.has_buffer)
      invalid_model
  require (fits_norms w) invalid_model
  require (not (is_empty w.layers)) invalid_model
  validate_layers w.layers

abbrev pub mtp_name : ℕ → List ℕ → List ℕ
mtp_name index suffix = codes "mtp.layers." ++ decimal index ++ b'.' ∷ suffix

module _ (loader : TensorSource) (device : Device) where
  -- The layer at an index.
  unfoldable pub load_mtp_layer : ℕ → Result Qwen3LayerWeights
  load_mtp_layer index = do
    input_layernorm ← load_tensor loader (mtp_name index (codes "input_layernorm.weight")) device
    post_attention_layernorm ←
        load_tensor loader (mtp_name index (codes "post_attention_layernorm.weight")) device
    q_proj ← load_quantized loader (mtp_name index (codes "self_attn.q_proj.weight")) device
    k_proj ← load_quantized loader (mtp_name index (codes "self_attn.k_proj.weight")) device
    v_proj ← load_quantized loader (mtp_name index (codes "self_attn.v_proj.weight")) device
    o_proj ← load_quantized loader (mtp_name index (codes "self_attn.o_proj.weight")) device
    q_norm ← load_tensor loader (mtp_name index (codes "self_attn.q_norm.weight")) device
    k_norm ← load_tensor loader (mtp_name index (codes "self_attn.k_norm.weight")) device
    mlp_gate_proj ← load_quantized loader (mtp_name index (codes "mlp.gate_proj.weight")) device
    mlp_up_proj ← load_quantized loader (mtp_name index (codes "mlp.up_proj.weight")) device
    mlp_down_proj ← load_quantized loader (mtp_name index (codes "mlp.down_proj.weight")) device
    let layer : Qwen3LayerWeights = record no_layer {
      layer_index = pos index;
      is_attention_layer = true;
      input_layernorm = input_layernorm;
      post_attention_layernorm = post_attention_layernorm;
      q_proj = q_proj;
      k_proj = k_proj;
      v_proj = v_proj;
      o_proj = o_proj;
      q_norm = q_norm;
      k_norm = k_norm;
      mlp_gate_proj = mlp_gate_proj;
      mlp_up_proj = mlp_up_proj;
      mlp_down_proj = mlp_down_proj;
    }
    validate_layer layer
    ok layer

  -- The loop over `count` layers from `index`.
  unfoldable pub load_mtp_layers : ℕ → ℕ → Result (List Qwen3LayerWeights)
  unfolding load_mtp_layer
  load_mtp_layers index zero = ok []
  load_mtp_layers index (suc count) = do
    layer ← load_mtp_layer index
    layers ← load_mtp_layers (suc index) count
    ok (layer ∷ layers)

  unfoldable pub load_mtp : Qwen3Config → Result Qwen3MtpWeights
  unfolding load_mtp_layers validate_mtp
  load_mtp config = do
    require (not (config.mtp_num_hidden_layers == 0)) invalid_model
    fc ← load_tensor loader (codes "mtp.fc.weight") device
    norm ← load_tensor loader (codes "mtp.norm.weight") device
    pre_fc_norm_embedding ← load_tensor loader (codes "mtp.pre_fc_norm_embedding.weight") device
    pre_fc_norm_hidden ← load_tensor loader (codes "mtp.pre_fc_norm_hidden.weight") device
    layers ← load_mtp_layers 0 config.mtp_num_hidden_layers
    let result : Qwen3MtpWeights = record {
      fc = fc;
      norm = norm;
      pre_fc_norm_embedding = pre_fc_norm_embedding;
      pre_fc_norm_hidden = pre_fc_norm_hidden;
      layers = layers;
    }
    validate_mtp result
    ok result
