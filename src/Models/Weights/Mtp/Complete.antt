-- ===== src/Models/Weights/Mtp/Complete.antt =====
-- src/models/qwen3_weights.cc: what load_mtp gives.
use vicold_hybrid_ai.Base.{
  ℕ, zero, suc, pos, ◌*◌, ◌<◌, ◌≡◌, refl, sym, ap, ◌∙◌, true, ◌&&◌, not, both, List, [], ◌∷◌, ◌++◌,
  decimal, get_or, ◌==◌, ==_iff, codes, arith,
}
use vicold_hybrid_ai.Core.{
  Result, ok, invalid_model, Device, ◌>>=◌, require-elim, Ensures, Ensures-bind, Ensures-require,
  Ensures-then, Ensures-path,
}
use vicold_hybrid_ai.Models.Config.{Qwen3Config}
use vicold_hybrid_ai.Models.Quantized.{Tensor, QuantizedWeight}
use vicold_hybrid_ai.Models.Weights.{
  TensorSource, Qwen3LayerWeights, validate_layer, load_tensor, load_quantized, no_layer,
}
use vicold_hybrid_ai.Models.Weights.Loaded.{
  IsTensor, IsPlaced, load_tensor-IsTensor, load_quantized-IsPlaced,
}
use vicold_hybrid_ai.Models.Weights.Layer.Complete.{HasNorms, HasKind, HasMlp}
use vicold_hybrid_ai.Models.Weights.Mtp.{
  Qwen3MtpWeights, fits_norms, validate_mtp, mtp_name, load_mtp_layer, load_mtp_layers, load_mtp,
}

-- The name of a tensor in a layer.
abbrev pub layer_tensor : ℕ → List ℕ → List ℕ
layer_tensor index suffix = codes "mtp.layers." ++ decimal index ++ b'.' ∷ suffix

-- A decoder layer of multi-token prediction: of full attention, whole and on the device.
pub record IsMtpLayer (loader : TensorSource) (device : Device) (index : ℕ) (w : Qwen3LayerWeights)
    : Type 0 where
  pub norms : HasNorms loader device (layer_tensor index) (pos index) true w
  pub projections : HasKind loader device (layer_tensor index) true w
  pub mlp : HasMlp loader device (layer_tensor index) w
  pub valid : validate_layer w ≡ ok tt

-- Layers with the indices from `index` on.
abbrev pub AreMtpLayers : TensorSource → Device → ℕ → ℕ → List Qwen3LayerWeights → Type 0
AreMtpLayers loader device index zero layers = layers ≡ []
AreMtpLayers loader device index (suc count) [] = ⊥
AreMtpLayers loader device index (suc count) (layer ∷ layers) =
    IsMtpLayer loader device index layer × AreMtpLayers loader device (suc index) count layers

-- Weights of multi-token prediction: `count` layers, a projection from two hidden states to one, and
-- the norms of that size, all in the memory of the device but for the scales of weights.
pub record IsMtp (loader : TensorSource) (device : Device) (count : ℕ) (w : Qwen3MtpWeights)
    : Type 0 where
  pub some_layer : 0 < count
  pub layers : AreMtpLayers loader device 0 count w.layers
  pub fc : IsTensor loader device (codes "mtp.fc.weight") w.fc
  pub norm : IsTensor loader device (codes "mtp.norm.weight") w.norm
  pub embedding :
      IsTensor loader device (codes "mtp.pre_fc_norm_embedding.weight") w.pre_fc_norm_embedding
  pub hidden : IsTensor loader device (codes "mtp.pre_fc_norm_hidden.weight") w.pre_fc_norm_hidden
  pub projects :
      (get_or w.fc.shape 1 0 ≡ get_or w.fc.shape 0 0 * 2)
      × (get_or w.norm.shape 0 0 ≡ get_or w.fc.shape 0 0)

module _ (loader : TensorSource) (device : Device) where
  quantized :
      {B : Type 0} (P : B → Type 0) (index : ℕ) (suffix : List ℕ) (f : QuantizedWeight → Result B)
      → ((w : QuantizedWeight) → IsPlaced loader device (mtp_name index suffix) w → Ensures P (f w))
      → Ensures P (load_quantized loader (mtp_name index suffix) device >>= f)
  quantized P index suffix f =
      Ensures-then (IsPlaced loader device (mtp_name index suffix)) P
        (load_quantized loader (mtp_name index suffix) device) f
        (load_quantized-IsPlaced loader device (mtp_name index suffix))

  plain :
      {B : Type 0} (P : B → Type 0) (name : List ℕ) (f : Tensor → Result B)
      → ((t : Tensor) → IsTensor loader device name t → Ensures P (f t))
      → Ensures P (load_tensor loader name device >>= f)
  plain P name f =
      Ensures-then (IsTensor loader device name) P (load_tensor loader name device) f
        (load_tensor-IsTensor loader device name)

  load_mtp_layer-IsMtpLayer :
      (index : ℕ) → Ensures (IsMtpLayer loader device index) (load_mtp_layer loader device index)
  unfolding load_mtp_layer
  load_mtp_layer-IsMtpLayer index =
      let P = IsMtpLayer loader device index in
      plain P (mtp_name index (codes "input_layernorm.weight")) _ λ input_layernorm i.
        plain P (mtp_name index (codes "post_attention_layernorm.weight")) _
          λ post_attention_layernorm p.
            quantized P index (codes "self_attn.q_proj.weight") _ λ q_proj q.
              quantized P index (codes "self_attn.k_proj.weight") _ λ k_proj k.
                quantized P index (codes "self_attn.v_proj.weight") _ λ v_proj v.
                  quantized P index (codes "self_attn.o_proj.weight") _ λ o_proj o.
                    plain P (mtp_name index (codes "self_attn.q_norm.weight")) _ λ q_norm qn.
                      plain P (mtp_name index (codes "self_attn.k_norm.weight")) _ λ k_norm kn.
                        quantized P index (codes "mlp.gate_proj.weight") _ λ mlp_gate_proj g.
                          quantized P index (codes "mlp.up_proj.weight") _ λ mlp_up_proj u.
                            quantized P index (codes "mlp.down_proj.weight") _ λ mlp_down_proj d.
                              let layer : Qwen3LayerWeights = record no_layer {
                                layer_index = pos index;
                                is_attention_layer = true;
                                input_layernorm = input_layernorm;
                                post_attention_layernorm = post_attention_layernorm;
                                q_proj = q_proj;
                                k_proj = k_proj;
                                v_proj = v_proj;
                                o_proj = o_proj;
                                q_norm = q_norm;
                                k_norm = k_norm;
                                mlp_gate_proj = mlp_gate_proj;
                                mlp_up_proj = mlp_up_proj;
                                mlp_down_proj = mlp_down_proj;
                              } in
                              Ensures-bind P (validate_layer layer) _ λ _ valid. record {
                                norms = (refl, refl, i, p);
                                projections = (q, k, v, o, qn, kn);
                                mlp = (g, u, d);
                                valid = valid;
                              }

  load_mtp_layers-AreMtpLayers :
      (index count : ℕ)
      → Ensures (AreMtpLayers loader device index count) (load_mtp_layers loader device index count)
  unfolding load_mtp_layers
  load_mtp_layers-AreMtpLayers index zero = refl
  load_mtp_layers-AreMtpLayers index (suc count) =
      let P = AreMtpLayers loader device index (suc count) in
      Ensures-then (IsMtpLayer loader device index) P (load_mtp_layer loader device index) _
        (load_mtp_layer-IsMtpLayer index)
        λ layer l.
          Ensures-then (AreMtpLayers loader device (suc index) count) P
            (load_mtp_layers loader device (suc index) count) _
            (load_mtp_layers-AreMtpLayers (suc index) count) λ layers ls. (l, ls)

fits_norms-projects :
    (w : Qwen3MtpWeights)
    → fits_norms w ≡ true
    → (get_or w.fc.shape 1 0 ≡ get_or w.fc.shape 0 0 * 2)
      × (get_or w.norm.shape 0 0 ≡ get_or w.fc.shape 0 0)
fits_norms-projects w h =
    let (others, rows) = both _ (get_or w.fc.shape 0 0 == get_or w.norm.shape 0 0) h in
    let (_, columns) = both _ (get_or w.fc.shape 1 0 == get_or w.norm.shape 0 0 * 2) others in
    let same = (==_iff (get_or w.fc.shape 0 0) (get_or w.norm.shape 0 0)).0 rows in
    (
      (==_iff (get_or w.fc.shape 1 0) (get_or w.norm.shape 0 0 * 2)).0 columns
          ∙ ap (λ (n : ℕ). n * 2) (sym same),
      sym same,
    )

validate_mtp-projects :
    (w : Qwen3MtpWeights)
    → validate_mtp w ≡ ok tt
    → (get_or w.fc.shape 1 0 ≡ get_or w.fc.shape 0 0 * 2)
      × (get_or w.norm.shape 0 0 ≡ get_or w.fc.shape 0 0)
unfolding validate_mtp
validate_mtp-projects w h =
    require-elim
      (w.fc.has_buffer && w.norm.has_buffer && w.pre_fc_norm_embedding.has_buffer
        && w.pre_fc_norm_hidden.has_buffer)
      invalid_model _ h
      λ _ h'. require-elim (fits_norms w) invalid_model _ h' λ fits _. fits_norms-projects w fits

-- If load_mtp succeeds, there is a layer at least, each layer has full attention, has passed its checks
-- and is whole, and so are the norms and the projection, which takes two hidden states of the size of
-- the norm to one: each tensor is read from its name into the memory of the device (host memory for a
-- CPU), and the scales of a weight, if it has any, from their name into host memory.
pub load_mtp-IsMtp :
    (loader : TensorSource) (device : Device) (config : Qwen3Config) (w : Qwen3MtpWeights)
    → load_mtp loader device config ≡ ok w
    → IsMtp loader device config.mtp_num_hidden_layers w
unfolding load_mtp
load_mtp-IsMtp loader device config w h =
    let count = config.mtp_num_hidden_layers in
    let P = IsMtp loader device count in
    Ensures-path P (load_mtp loader device config) w
      (Ensures-require P (not (count == 0)) invalid_model _ λ some_layer.
        plain loader device P (codes "mtp.fc.weight") _ λ fc f.
          plain loader device P (codes "mtp.norm.weight") _ λ norm n.
            plain loader device P (codes "mtp.pre_fc_norm_embedding.weight") _
              λ pre_fc_norm_embedding e.
                plain loader device P (codes "mtp.pre_fc_norm_hidden.weight") _
                  λ pre_fc_norm_hidden d.
                    Ensures-then (AreMtpLayers loader device 0 count) P
                      (load_mtp_layers loader device 0 count) _
                      (load_mtp_layers-AreMtpLayers loader device 0 count)
                      λ layers ls.
                        let result : Qwen3MtpWeights = record {
                          fc = fc;
                          norm = norm;
                          pre_fc_norm_embedding = pre_fc_norm_embedding;
                          pre_fc_norm_hidden = pre_fc_norm_hidden;
                          layers = layers;
                        } in
                        Ensures-bind P (validate_mtp result) _ λ _ valid. record {
                          some_layer = ground arith;
                          layers = ls;
                          fc = f;
                          norm = n;
                          embedding = e;
                          hidden = d;
                          projects = validate_mtp-projects result valid;
                        })
      h
