-- ===== src/Pinmux/Tables/Cv500.antt =====
-- src/reginfo.c: the registers of `CV500regs`, in its order.
use ipctool.Base.{List, [], ◌∷◌, ◌++◌, ◌≡◌, refl, true}
use ipctool.Pinmux.Register.{Register, muxctrl, proper}

cv500_low : List Register
cv500_low =
    muxctrl 0x10FF0000 ("EMMC_CLK" ∷ "SFC_CLK" ∷ "SFC_BOOT_MODE" ∷ [])
    ∷ muxctrl 0x10FF0004 ("EMMC_CMD" ∷ "SFC_HOLD_IO3" ∷ [])
    ∷ muxctrl 0x10FF0008 ("EMMC_DATA0" ∷ "SFC_WP_IO2" ∷ [])
    ∷ muxctrl 0x10FF000C ("EMMC_DATA1" ∷ "SFC_MISO_IO1" ∷ [])
    ∷ muxctrl 0x10FF0010 ("EMMC_DATA2" ∷ "SFC_CSN" ∷ "GPIO0_7" ∷ [])
    ∷ muxctrl 0x10FF0014 ("EMMC_DATA3" ∷ "SFC_MOSI_IO0" ∷ [])
    ∷ muxctrl 0x10FF0018 ("EMMC_RST_N" ∷ "SYS_RSTN_OUT" ∷ "GPIO10_5" ∷ [])
    ∷ muxctrl 0x10FF001C ("GPIO1_0" ∷ "SDIO0_CARD_POWER_EN" ∷ "JTAG_TCK" ∷ "USBPHY_TEST_OBS0" ∷ [])
    ∷ muxctrl 0x10FF0020 ("GPIO1_1" ∷ "SDIO0_CARD_DETECT" ∷ "reserved" ∷ "USBPHY_TEST_OBS1" ∷ [])
    ∷ muxctrl 0x10FF0024 ("GPIO1_2" ∷ "SDIO0_CCLK_OUT" ∷ "JTAG_TRSTN" ∷ "USBPHY_TEST_OBS2" ∷ [])
    ∷ muxctrl 0x10FF0028 ("GPIO1_3" ∷ "SDIO0_CCMD" ∷ "reserved" ∷ "USBPHY_TEST_OBS3" ∷ [])
    ∷ muxctrl 0x10FF002C ("GPIO1_4" ∷ "SDIO0_CDATA0" ∷ "reserved" ∷ "USBPHY_TEST_OBS4" ∷ [])
    ∷ muxctrl 0x10FF0030 ("GPIO1_5" ∷ "SDIO0_CDATA1" ∷ "JTAG_TMS" ∷ "USBPHY_TEST_OBS5" ∷ [])
    ∷ muxctrl 0x10FF0034 ("GPIO1_6" ∷ "SDIO0_CDATA2" ∷ "JTAG_TDO" ∷ "USBPHY_TEST_OBS6" ∷ [])
    ∷ muxctrl 0x10FF0038 ("GPIO1_7" ∷ "SDIO0_CDATA3" ∷ "JTAG_TDI" ∷ "USBPHY_TEST_OBS7" ∷ [])
    ∷ muxctrl 0x10FF003C ("GPIO2_0" ∷ "USB_OVRCUR" ∷ [])
    ∷ muxctrl 0x10FF0040 ("GPIO2_1" ∷ "USB_VBUS" ∷ [])
    ∷ muxctrl 0x10FF0044 ("GPIO2_2" ∷ "USB_PWREN" ∷ [])
    ∷ muxctrl 0x114F0010 ("reserved" ∷ "VI_DATA8" ∷ [])
    ∷ muxctrl 0x114F0014 ("reserved" ∷ "VI_DATA9" ∷ [])
    ∷ muxctrl 0x114F0018 ("MIPI_RX_D2N" ∷ "VI_DATA15" ∷ [])
    ∷ muxctrl 0x114F001C ("MIPI_RX_D2P" ∷ "VI_DATA14" ∷ [])
    ∷ muxctrl 0x114F0020 ("MIPI_RX_D3N" ∷ "VI_DATA10" ∷ [])
    ∷ muxctrl 0x114F0024 ("MIPI_RX_D3P" ∷ "VI_DATA11" ∷ [])
    ∷ muxctrl 0x114F0028 ("MIPI_RX_CK0N" ∷ "VI_DATA13" ∷ [])
    ∷ muxctrl 0x114F002C ("MIPI_RX_CK0P" ∷ "VI_DATA12" ∷ [])
    ∷ muxctrl 0x114F0030 ("MIPI_RX_D0N" ∷ [])
    ∷ muxctrl 0x114F0034 ("MIPI_RX_D0P" ∷ [])
    ∷ muxctrl 0x114F0038 ("MIPI_RX_D1N" ∷ [])
    ∷ muxctrl 0x114F003C ("MIPI_RX_D1P" ∷ [])
    ∷ muxctrl 0x114F0040 ("GPIO3_0" ∷ "VI_DATA0" ∷ "VOU656_DATA0" ∷ "I2C5_SCL" ∷ [])
    ∷ muxctrl 0x114F0044 ("GPIO3_1" ∷ "VI_DATA1" ∷ "VOU656_DATA1" ∷ "I2C5_SDA" ∷ [])
    ∷ muxctrl 0x114F0048 ("GPIO3_2" ∷ "VI_DATA2" ∷ "VOU656_DATA2" ∷ "I2C6_SCL" ∷ [])
    ∷ muxctrl 0x114F004C ("GPIO3_3" ∷ "VI_DATA3" ∷ "VOU656_DATA3" ∷ "I2C6_SDA" ∷ [])
    ∷ muxctrl 0x114F0050 ("GPIO3_4" ∷ "VI_DATA4" ∷ "VOU656_DATA4" ∷ "UART2_RTSN" ∷ "SPI2_SCLK" ∷ [])
    ∷ muxctrl 0x114F0054 ("GPIO3_5" ∷ "VI_DATA5" ∷ "VOU656_DATA5" ∷ "UART2_CTSN" ∷ "SPI2_SDO" ∷ [])
    ∷ muxctrl 0x114F0058 ("GPIO3_6" ∷ "VI_DATA6" ∷ "VOU656_DATA6" ∷ "UART2_RXD" ∷ "SPI2_SDI" ∷ [])
    ∷ muxctrl 0x114F005C ("GPIO3_7" ∷ "VI_DATA7" ∷ "VOU656_DATA7" ∷ "UART2_TXD" ∷ "SPI2_CSN" ∷ [])
    ∷ muxctrl 0x114F0060 ("GPIO4_6" ∷ "VI_VS" ∷ "reserved" ∷ "FLASH_TRIG" ∷ "SENSOR_VS" ∷ [])
    ∷ muxctrl 0x114F0064 ("GPIO4_7" ∷ "VI_HS" ∷ "reserved" ∷ "SHUTTER_TRIG" ∷ "SENSOR_HS" ∷ [])
    ∷ muxctrl 0x114F0068 ("GPIO2_3" ∷ "VI_CLK" ∷ "VOU656_CLK" ∷ [])
    ∷ muxctrl 0x114F006C ("GPIO4_0" ∷ "SENSOR0_CLK" ∷ [])
    ∷ muxctrl 0x114F0070 ("GPIO4_1" ∷ "SENSOR0_RSTN" ∷ "BOOT_SEL1" ∷ [])
    ∷ muxctrl 0x114F0074 ("GPIO4_2" ∷ "SPI0_SCLK" ∷ "I2C0_SCL" ∷ "SPI_3LINE_SCLK" ∷ [])
    ∷ muxctrl 0x114F0078 ("GPIO4_3" ∷ "SPI0_SDO" ∷ "I2C0_SDA" ∷ "SPI_3LINE_SDATA" ∷ [])
    ∷ muxctrl 0x114F007C ("GPIO4_4" ∷ "SPI0_SDI" ∷ "I2C1_SDA" ∷ "reserved" ∷ "SENSOR_VS" ∷ [])
    ∷ muxctrl 0x114F0080 ("GPIO4_5" ∷ "SPI0_CSN" ∷ "I2C1_SCL" ∷ "SPI_3LINE_CSN" ∷ "SENSOR_HS" ∷ [])
    ∷ muxctrl 0x111F0000 ("GPIO5_0" ∷ "UART1_RTSN" ∷ "UART4_RXD" ∷ [])
    ∷ muxctrl 0x111F0004 ("GPIO5_1" ∷ "UART1_CTSN" ∷ "UART4_TXD" ∷ [])
    ∷ muxctrl 0x111F0008 ("GPIO5_2" ∷ "UART1_RXD" ∷ [])
    ∷ muxctrl 0x111F000C ("GPIO5_3" ∷ "UART1_TXD" ∷ [])
    ∷ muxctrl 0x111F0010 ("GPIO5_4" ∷ "UART0_RXD" ∷ [])
    ∷ []

cv500_high : List Register
cv500_high =
    muxctrl 0x111F0014 ("GPIO5_5" ∷ "UART0_TXD" ∷ [])
    ∷ muxctrl 0x111F0018 ("GPIO5_6" ∷ "I2C2_SDA" ∷ [])
    ∷ muxctrl 0x111F001C ("GPIO5_7" ∷ "I2C2_SCL" ∷ [])
    ∷ muxctrl 0x111F0020 ("TEST_MODE" ∷ [])
    ∷ muxctrl 0x111F0024 ("GPIO6_6" ∷ "PWM0" ∷ [])
    ∷ muxctrl 0x111F0028 ("GPIO6_7" ∷ "PWM1" ∷ [])
    ∷ muxctrl 0x111F002C ("SVB_PWM" ∷ "GPIO10_2" ∷ [])
    ∷ muxctrl 0x111F0030 ("LSADC_CH0" ∷ "GPIO10_3" ∷ [])
    ∷ muxctrl 0x111F0034 ("LSADC_CH1" ∷ "GPIO10_4" ∷ [])
    ∷ muxctrl 0x112F0000 ("GPIO10_6" ∷ "I2C7_SCL" ∷ [])
    ∷ muxctrl 0x112F0004 ("GPIO10_7" ∷ "I2C7_SDA" ∷ "RMII_CLK" ∷ [])
    ∷ muxctrl 0x112F0008 ("GPIO6_0" ∷ "SDIO1_CCLK_OUT" ∷ "RMII_RX_DV" ∷ [])
    ∷ muxctrl 0x112F000C ("GPIO6_1" ∷ "SDIO1_CCMD" ∷ "EPHY_CLK" ∷ [])
    ∷ muxctrl 0x112F0010 ("GPIO6_2" ∷ "SDIO1_CDATA0" ∷ "MDCK" ∷ [])
    ∷ muxctrl 0x112F0014 ("GPIO6_3" ∷ "SDIO1_CDATA1" ∷ "MDIO" ∷ [])
    ∷ muxctrl 0x112F0018 ("GPIO6_4" ∷ "SDIO1_CDATA2" ∷ "RMII_TX_EN" ∷ [])
    ∷ muxctrl 0x112F001C ("GPIO6_5" ∷ "SDIO1_CDATA3" ∷ "EPHY_RSTN" ∷ [])
    ∷ muxctrl 0x112F0020 ("JTAG_TRSTN" ∷ "SPI1_SCLK" ∷ "RMII_TXD1" ∷ "I2S_MCLK" ∷ "GPIO8_0" ∷ [])
    ∷ muxctrl 0x112F0024 ("JTAG_TCK" ∷ "SPI1_SDO" ∷ "RMII_RXD1" ∷ "I2S_BCLK_TX" ∷ "GPIO8_1" ∷ [])
    ∷ muxctrl 0x112F0028 ("JTAG_TMS" ∷ "SPI1_CSN0" ∷ "RMII_TXD0" ∷ "I2S_WS_TX" ∷ "GPIO8_2" ∷ [])
    ∷ muxctrl 0x112F002C ("JTAG_TDO" ∷ "SPI1_SDI" ∷ "RMII_RXD0" ∷ "I2S_SD_TX" ∷ "GPIO8_3" ∷ [])
    ∷ muxctrl 0x112F0030 ("JTAG_TDI" ∷ "SPI1_CSN1" ∷ "LCD_DATA23" ∷ "I2S_SD_RX" ∷ "GPIO8_4" ∷ [])
    ∷ muxctrl 0x112F0034 ("GPIO0_6" ∷ "reserved" ∷ "LCD_CLK" ∷ "VOU1120_CLK/VOU656_CLK" ∷ [])
    ∷ muxctrl 0x112F0038 ("GPIO8_5" ∷ "MDIO" ∷ "LCD_DATA5" ∷ "VOU1120_DATA2/VOU656_DATA2" ∷ [])
    ∷ muxctrl 0x112F003C
        ("GPIO8_6" ∷ "MDCK" ∷ "LCD_DATA4" ∷ "VOU1120_DATA3/VOU656_DATA3" ∷ "BOOT_SEL0" ∷ [])
    ∷ muxctrl 0x112F0040
        ("TEST_CLK" ∷ "RMII_TXD1" ∷ "LCD_DATA1" ∷ "VOU1120_DATA6/VOU656_DATA6" ∷ "GPIO8_7" ∷ [])
    ∷ muxctrl 0x112F0044
        ("GPIO7_0" ∷ "RMII_TX_EN" ∷ "LCD_DATA2" ∷ "VOU1120_DATA5/VOU656_DATA5" ∷ [])
    ∷ muxctrl 0x112F0048 ("GPIO7_1" ∷ "RMII_TXD0" ∷ "LCD_DATA0" ∷ "VOU1120_DATA7/VOU656_DATA7" ∷ [])
    ∷ muxctrl 0x112F004C ("GPIO7_2" ∷ "RMII_CLK" ∷ "LCD_HSYNC" ∷ [])
    ∷ muxctrl 0x112F0050
        ("GPIO7_3" ∷ "RMII_RX_DV" ∷ "LCD_DATA6" ∷ "VOU1120_DATA1/VOU656_DATA1" ∷ [])
    ∷ muxctrl 0x112F0054 ("GPIO7_4" ∷ "RMII_RXD1" ∷ "LCD_VSYNC" ∷ [])
    ∷ muxctrl 0x112F0058 ("GPIO7_5" ∷ "RMII_RXD0" ∷ "LCD_DE" ∷ [])
    ∷ muxctrl 0x112F005C (
        "GPIO7_6" ∷ "EPHY_RSTN" ∷ "LCD_DATA3" ∷ "VOU1120_DATA4/VOU656_DATA4" ∷ "SFC_DEVICE_MODE"
        ∷ [])
    ∷ muxctrl 0x112F0060 ("GPIO7_7" ∷ "EPHY_CLK" ∷ "LCD_DATA7" ∷ "VOU1120_DATA0/VOU656_DATA0" ∷ [])
    ∷ muxctrl 0x112F0064 ("DSI_D3P" ∷ "GPIO9_0" ∷ "LCD_DATA16" ∷ "SHUTTER_TRIG" ∷ "LCD_DATA5" ∷ [])
    ∷ muxctrl 0x112F0068 ("DSI_D3N" ∷ "GPIO9_1" ∷ "LCD_DATA17" ∷ "FLASH_TRIG" ∷ "LCD_CLK" ∷ [])
    ∷ muxctrl 0x112F006C ("DSI_D2N" ∷ "GPIO9_2" ∷ "LCD_DATA14" ∷ "VOU1120_DATA9" ∷ "LCD_DATA3" ∷ [])
    ∷ muxctrl 0x112F0070 ("DSI_D2P" ∷ "GPIO9_3" ∷ "LCD_DATA15" ∷ "VOU1120_DATA8" ∷ "LCD_DATA4" ∷ [])
    ∷ muxctrl 0x112F0074
        ("DSI_CKP" ∷ "GPIO9_4" ∷ "LCD_DATA12" ∷ "VOU1120_DATA11" ∷ "LCD_DATA1" ∷ [])
    ∷ muxctrl 0x112F0078
        ("DSI_CKN" ∷ "GPIO9_5" ∷ "LCD_DATA13" ∷ "VOU1120_DATA10" ∷ "LCD_DATA2" ∷ [])
    ∷ muxctrl 0x112F007C
        ("DSI_D1N" ∷ "GPIO9_6" ∷ "LCD_DATA10" ∷ "VOU1120_DATA13" ∷ "LCD_HSYNC" ∷ [])
    ∷ muxctrl 0x112F0080
        ("DSI_D1P" ∷ "GPIO9_7" ∷ "LCD_DATA11" ∷ "VOU1120_DATA12" ∷ "LCD_DATA0" ∷ [])
    ∷ muxctrl 0x112F0084 ("DSI_D0P" ∷ "GPIO10_0" ∷ "LCD_DATA8" ∷ "VOU1120_DATA15" ∷ "LCD_DE" ∷ [])
    ∷ muxctrl 0x112F0088
        ("DSI_D0N" ∷ "GPIO10_1" ∷ "LCD_DATA9" ∷ "VOU1120_DATA14" ∷ "LCD_VSYNC" ∷ [])
    ∷ muxctrl 0x112F008C ("GPIO0_1" ∷ "I2C3_SDA" ∷ "LCD_DATA20" ∷ [])
    ∷ muxctrl 0x112F0090 ("GPIO0_2" ∷ "I2C3_SCL" ∷ "LCD_DATA19" ∷ [])
    ∷ muxctrl 0x112F0094 ("GPIO0_3" ∷ "IR_IN" ∷ "LCD_DATA18" ∷ [])
    ∷ muxctrl 0x112F0098 ("GPIO0_4" ∷ "reserved" ∷ "LCD_DATA21" ∷ [])
    ∷ muxctrl 0x112F009C ("GPIO0_5" ∷ "reserved" ∷ "LCD_DATA22" ∷ [])
    ∷ muxctrl 0x112F00A0 ("GPIO0_0" ∷ "UPDATE_MODE" ∷ [])
    ∷ muxctrl 0x112F00A8 ("PWR_WAKEUP" ∷ "GPIO11_0" ∷ [])
    ∷ muxctrl 0x112F00AC ("PWR_SEQ0" ∷ "GPIO11_1" ∷ [])
    ∷ []

pub cv500_regs : List Register
unfolding cv500_low cv500_high
cv500_regs = cv500_low ++ cv500_high

pub cv500_regs-proper : proper cv500_regs ≡ true
unfolding cv500_regs proper
cv500_regs-proper = refl
