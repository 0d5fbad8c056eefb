-- ===== src/Jobs.antt =====
-- The jobs that make keys and trees and keep them in the cluster.
pub mod Crypto
pub mod RootCertificate
pub mod Fulcio
pub mod Rekor
pub mod Tsa
pub mod Trees
pub mod Proxy
pub mod TufSecret
