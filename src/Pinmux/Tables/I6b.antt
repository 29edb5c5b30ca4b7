-- ===== src/Pinmux/Tables/I6b.antt =====
-- src/hal/sstar_reginfo.h: the registers of `I6B_regs`, in its order.
use ipctool.Base.{List, [], ◌∷◌, ◌≡◌, refl, true}
use ipctool.Pinmux.Register.{Register, muxctrl, proper}

pub i6b_regs : List Register
i6b_regs =
    muxctrl 0x1F207800 ("PAD_GPIO0" ∷ [])
    ∷ muxctrl 0x1F207804 ("PAD_GPIO1" ∷ [])
    ∷ muxctrl 0x1F207808 ("PAD_GPIO2" ∷ [])
    ∷ muxctrl 0x1F20780C ("PAD_GPIO3" ∷ [])
    ∷ muxctrl 0x1F207810 ("PAD_GPIO4" ∷ [])
    ∷ muxctrl 0x1F207814 ("PAD_GPIO5" ∷ [])
    ∷ muxctrl 0x1F207818 ("PAD_GPIO6" ∷ [])
    ∷ muxctrl 0x1F20781C ("PAD_GPIO7" ∷ [])
    ∷ muxctrl 0x1F207820 ("PAD_GPIO8" ∷ [])
    ∷ muxctrl 0x1F207824 ("PAD_GPIO9" ∷ [])
    ∷ muxctrl 0x1F207830 ("PAD_GPIO12" ∷ [])
    ∷ muxctrl 0x1F207834 ("PAD_GPIO13" ∷ [])
    ∷ muxctrl 0x1F207838 ("PAD_GPIO14" ∷ [])
    ∷ muxctrl 0x1F20783C ("PAD_GPIO15" ∷ [])
    ∷ muxctrl 0x1F207850 ("PAD_FUART_RX" ∷ [])
    ∷ muxctrl 0x1F207854 ("PAD_FUART_TX" ∷ [])
    ∷ muxctrl 0x1F207858 ("PAD_FUART_CTS" ∷ [])
    ∷ muxctrl 0x1F20785C ("PAD_FUART_RTS" ∷ [])
    ∷ muxctrl 0x1F207980 ("PAD_I2C0_SCL" ∷ [])
    ∷ muxctrl 0x1F207984 ("PAD_I2C0_SDA" ∷ [])
    ∷ muxctrl 0x1F207988 ("PAD_I2C1_SCL" ∷ [])
    ∷ muxctrl 0x1F20798C ("PAD_I2C1_SDA" ∷ [])
    ∷ muxctrl 0x1F207880 ("PAD_SR_IO00" ∷ [])
    ∷ muxctrl 0x1F207884 ("PAD_SR_IO01" ∷ [])
    ∷ muxctrl 0x1F207888 ("PAD_SR_IO02" ∷ [])
    ∷ muxctrl 0x1F20788C ("PAD_SR_IO03" ∷ [])
    ∷ muxctrl 0x1F207890 ("PAD_SR_IO04" ∷ [])
    ∷ muxctrl 0x1F207894 ("PAD_SR_IO05" ∷ [])
    ∷ muxctrl 0x1F207898 ("PAD_SR_IO06" ∷ [])
    ∷ muxctrl 0x1F20789C ("PAD_SR_IO07" ∷ [])
    ∷ muxctrl 0x1F2078A0 ("PAD_SR_IO08" ∷ [])
    ∷ muxctrl 0x1F2078A4 ("PAD_SR_IO09" ∷ [])
    ∷ muxctrl 0x1F2078A8 ("PAD_SR_IO10" ∷ [])
    ∷ muxctrl 0x1F2078AC ("PAD_SR_IO11" ∷ [])
    ∷ muxctrl 0x1F2078B0 ("PAD_SR_IO12" ∷ [])
    ∷ muxctrl 0x1F2078B4 ("PAD_SR_IO13" ∷ [])
    ∷ muxctrl 0x1F2078B8 ("PAD_SR_IO14" ∷ [])
    ∷ muxctrl 0x1F2078BC ("PAD_SR_IO15" ∷ [])
    ∷ muxctrl 0x1F2078C0 ("PAD_SR_IO16" ∷ [])
    ∷ muxctrl 0x1F2078C4 ("PAD_SR_IO17" ∷ [])
    ∷ muxctrl 0x1F207860 ("PAD_UART0_RX" ∷ [])
    ∷ muxctrl 0x1F207864 ("PAD_UART0_TX" ∷ [])
    ∷ muxctrl 0x1F207868 ("PAD_UART1_RX" ∷ [])
    ∷ muxctrl 0x1F20786C ("PAD_UART1_TX" ∷ [])
    ∷ muxctrl 0x1F2079C0 ("PAD_SPI0_CZ" ∷ [])
    ∷ muxctrl 0x1F2079C4 ("PAD_SPI0_CK" ∷ [])
    ∷ muxctrl 0x1F2079C8 ("PAD_SPI0_DI" ∷ [])
    ∷ muxctrl 0x1F2079CC ("PAD_SPI0_DO" ∷ [])
    ∷ muxctrl 0x1F2079D0 ("PAD_SPI1_CZ" ∷ [])
    ∷ muxctrl 0x1F2079D4 ("PAD_SPI1_CK" ∷ [])
    ∷ muxctrl 0x1F2079D8 ("PAD_SPI1_DI" ∷ [])
    ∷ muxctrl 0x1F2079DC ("PAD_SPI1_DO" ∷ [])
    ∷ muxctrl 0x1F207840 ("PAD_PWM0" ∷ [])
    ∷ muxctrl 0x1F207844 ("PAD_PWM1" ∷ [])
    ∷ muxctrl 0x1F207940 ("PAD_SD_CLK" ∷ [])
    ∷ muxctrl 0x1F207944 ("PAD_SD_CMD" ∷ [])
    ∷ muxctrl 0x1F207948 ("PAD_SD_D0" ∷ [])
    ∷ muxctrl 0x1F20794C ("PAD_SD_D1" ∷ [])
    ∷ muxctrl 0x1F207950 ("PAD_SD_D2" ∷ [])
    ∷ muxctrl 0x1F207954 ("PAD_SD_D3" ∷ [])
    ∷ muxctrl 0x1F001F1C ("PAD_PM_SD_CDZ" ∷ [])
    ∷ muxctrl 0x1F001E50 ("PAD_PM_IRIN" ∷ [])
    ∷ muxctrl 0x1F001E00 ("PAD_PM_GPIO0" ∷ [])
    ∷ muxctrl 0x1F001E04 ("PAD_PM_GPIO1" ∷ [])
    ∷ muxctrl 0x1F001E08 ("PAD_PM_GPIO2" ∷ [])
    ∷ muxctrl 0x1F001E0C ("PAD_PM_GPIO3" ∷ [])
    ∷ muxctrl 0x1F001E10 ("PAD_PM_GPIO4" ∷ [])
    ∷ muxctrl 0x1F001E1C ("PAD_PM_GPIO7" ∷ [])
    ∷ muxctrl 0x1F001E20 ("PAD_PM_GPIO8" ∷ [])
    ∷ muxctrl 0x1F001E24 ("PAD_PM_GPIO9" ∷ [])
    ∷ muxctrl 0x1F001E60 ("PAD_PM_SPI_CZ" ∷ [])
    ∷ muxctrl 0x1F001E64 ("PAD_PM_SPI_CK" ∷ [])
    ∷ muxctrl 0x1F001E68 ("PAD_PM_SPI_DI" ∷ [])
    ∷ muxctrl 0x1F001E6C ("PAD_PM_SPI_DO" ∷ [])
    ∷ muxctrl 0x1F001F10 ("PAD_PM_SPI_WPZ" ∷ [])
    ∷ muxctrl 0x1F001F14 ("PAD_PM_SPI_HLD" ∷ [])
    ∷ muxctrl 0x1F001F28 ("PAD_PM_LED0" ∷ [])
    ∷ muxctrl 0x1F001F2C ("PAD_PM_LED1" ∷ [])
    ∷ muxctrl 0x1F002848 ("PAD_SAR_GPIO0" ∷ [])
    ∷ muxctrl 0x1F002848 ("PAD_SAR_GPIO1" ∷ [])
    ∷ muxctrl 0x1F002848 ("PAD_SAR_GPIO2" ∷ [])
    ∷ muxctrl 0x1F002848 ("PAD_SAR_GPIO3" ∷ [])
    ∷ muxctrl 0x1F0067C8 ("PAD_ETH_RN" ∷ [])
    ∷ muxctrl 0x1F0067C8 ("PAD_ETH_RP" ∷ [])
    ∷ muxctrl 0x1F0067C8 ("PAD_ETH_TN" ∷ [])
    ∷ muxctrl 0x1F0067C8 ("PAD_ETH_TP" ∷ [])
    ∷ muxctrl 0x1F284214 ("PAD_USB_DM" ∷ [])
    ∷ muxctrl 0x1F284214 ("PAD_USB_DP" ∷ [])
    ∷ muxctrl 0x1F207900 ("PAD_SD1_IO0" ∷ [])
    ∷ muxctrl 0x1F207904 ("PAD_SD1_IO1" ∷ [])
    ∷ muxctrl 0x1F207908 ("PAD_SD1_IO2" ∷ [])
    ∷ muxctrl 0x1F20790C ("PAD_SD1_IO3" ∷ [])
    ∷ muxctrl 0x1F207910 ("PAD_SD1_IO4" ∷ [])
    ∷ muxctrl 0x1F207914 ("PAD_SD1_IO5" ∷ [])
    ∷ muxctrl 0x1F207918 ("PAD_SD1_IO6" ∷ [])
    ∷ muxctrl 0x1F20791C ("PAD_SD1_IO7" ∷ [])
    ∷ muxctrl 0x1F207920 ("PAD_SD1_IO8" ∷ [])
    ∷ []

pub i6b_regs-proper : proper i6b_regs ≡ true
unfolding i6b_regs proper
i6b_regs-proper = refl
